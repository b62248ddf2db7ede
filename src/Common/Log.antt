-- ===== src/Common/Log.antt =====
-- The log functions of python_plugins/src/common.py: what they write to the system log.
use mathlib.Core.List.{append-nil, append_assoc}
use sonic_device_health_prtm.Prelude.{
  List, String, ◌≡◌, ◌∷◌, if◌then◌else◌, ◌++◌, [], sym, Bool-cases, inl, arith, inr, concat,
}
use sonic_device_health_prtm.Prelude.Int.{ℤ, pos, leb_ℤ}
use sonic_device_health_prtm.Common.Paths.{basename}

-- The levels of `syslog` that the module writes with, and their numbers.
pub data Level : Type 0 where
  log_err log_warning log_info log_debug : Level

abbrev pub number : Level → ℤ
number log_err = pos 3
number log_warning = pos 4
number log_info = pos 6
number log_debug = pos 7

-- `ct_log_level`, the name that `syslog.openlog` was given, and the lines that `syslog.syslog` was
-- given, with their levels.
pub record Log : Type 0 where
  pub ident : String
  pub level : ℤ
  pub written : List (Level × String)

-- `set_log_level`
abbrev pub set_log_level : ℤ → Log → Log
set_log_level lvl l = record l { level = lvl }

-- `syslog_init`; `argv0` is `sys.argv[0]`.
unfoldable pub syslog_init : String → String → Log → Log
syslog_init argv0 proc_name l = record l { ident = concat (basename argv0) (concat "_" proc_name) }

-- `_log_write`, but for the copy of the line that it prints.
unfoldable pub log_write : Level → String → Log → Log
log_write lvl msg l =
    if leb_ℤ (number lvl) l.level then record l { written = l.written ++ ((lvl, msg) ∷ []) } else l

-- Calls of the log functions in a row: `log_error`, `log_warning`, `log_info` and `log_debug` are
-- `_log_write` with their level.
abbrev pub write_all : List (Level × String) → Log → Log
write_all [] l = l
write_all ((lvl, msg) ∷ calls) l = write_all calls (log_write lvl msg l)

-- The calls of at most the level.
abbrev pub up_to : ℤ → List (Level × String) → List (Level × String)
up_to level [] = []
up_to level ((lvl, msg) ∷ calls) =
    if leb_ℤ (number lvl) level then (lvl, msg) ∷ up_to level calls else up_to level calls

-- Behind `set_log_level` the calls write exactly those lines, in order, whose level is at most the one
-- that was set.
pub write_all-set_log_level :
    (level : ℤ) (calls : List (Level × String)) (l : Log)
    → (write_all calls (set_log_level level l)).written ≡ l.written ++ up_to level calls
unfolding log_write
write_all-set_log_level level [] l = sym (append-nil l.written)
write_all-set_log_level level ((lvl, msg) ∷ calls) l =
    elim (Bool-cases (leb_ℤ (number lvl) level)) [
      | inl low ↦
          let more = l.written ++ ((lvl, msg) ∷ []) in
          ground (
            arith,
            low,
            write_all-set_log_level level calls (record l { written = more }),
            append_assoc l.written ((lvl, msg) ∷ []) (up_to level calls),
          )
      | inr high ↦ ground (arith, high, write_all-set_log_level level calls l)
    ]
