-- ===== src/TestClient/Ends.antt =====
-- The loop of `clib_poll_for_data` in python_plugins/tests/lib/test_client.py, and its
-- fuel.
use sonic_device_health_prtm.Prelude.{
  List, ℕ, length, ◌<◌, ◌∷◌, ◌≡◌, ◌≤◌, [], refl, is_some, arith, true, suc, zero, false, Option,
  Result, some, subst, sym, none,
}
use sonic_device_health_prtm.Prelude.Int.{ℤ, pos}
use sonic_device_health_prtm.TestClient.Reads.{
  await, read_from_server, read_req, keep_request, left, post, read_unless, keep_read, check_body,
  keep_checked,
}
use sonic_device_health_prtm.TestClient.Polls.{poll_rounds, poll_select, poll_round, look}
use sonic_device_health_prtm.TestClient.Calls.{Select, Client, ThreadLocal, on_thread}

pub await-now : (ws : List Select) (k : ℕ) (s : Client) → await ws (pos 0) k s ≡ s
unfolding await
await-now [] k s = refl
await-now (e ∷ es) k s = refl

poll_select-waits :
    (e : Select) (es : List Select) (fds : List ℕ) (timeout : ℤ) (s : Client)
    → length (poll_select (e ∷ es) fds timeout s).1.waits ≤ length es
unfolding poll_select
poll_select-waits e [] fds timeout s = ground arith
poll_select-waits e (f ∷ es) fds timeout s = ground (
  arith,
  poll_select-waits f es fds (left timeout)
      (record s { services = post e.posted s.services; waits = f ∷ es }),
)

read_from-waits : (k : ℕ) (s : Client) → (read_from_server (pos 0) k s).1.waits ≡ s.waits
unfolding read_from_server
read_from-waits k s = rw (await-now s.waits k s) refl

read_req-waits : (t : ThreadLocal) (s : Client) → (read_req (pos 0) t s).1.waits ≡ s.waits
unfolding read_req read_unless keep_read keep_request check_body keep_checked
read_req-waits t s = ground (arith, read_from-waits t.cache_svc s)

look-waits : (s : Client) → (look s).1.waits ≡ s.waits
unfolding look
look-waits s = go s.thread
  where
    go : (o : Option ThreadLocal) → (on_thread o false (read_req (pos 0)) s).1.waits ≡ s.waits
    go none = refl
    go (some t) = read_req-waits t s

poll_round-ends :
    (again : Client → Option (Result (Option ℤ) × Client)) (fuel signal : ℕ) (fds : List ℕ)
    (timeout : ℤ) (ws : List Select) (s : Client)
    → length ws < suc fuel
    → ((s' : Client) → length s'.waits < fuel → is_some (again s') ≡ true)
    → is_some (poll_round again signal fds timeout ws s) ≡ true
unfolding poll_round
poll_round-ends again fuel signal fds timeout [] s p ends = refl
poll_round-ends again fuel signal fds timeout (x ∷ es) s p ends =
    let polled = (poll_select (x ∷ es) (signal ∷ fds) timeout s).1 in
    let fewer : length polled.waits < fuel =
      omega (arith, poll_select-waits x es (signal ∷ fds) timeout s, p) in
    let fewer' : length (look polled).1.waits < fuel =
      subst (λ l. length l < fuel) (sym (look-waits polled)) fewer in
    ground (arith, ends polled fewer, ends (look polled).1 fewer')

-- With fuel beyond the number of waits to come the loop of a poll returns or raises.
pub poll_rounds-ends :
    (fuel signal : ℕ) (fds : List ℕ) (timeout : ℤ) (s : Client)
    → length s.waits < fuel
    → is_some (poll_rounds fuel signal fds timeout s) ≡ true
unfolding poll_rounds
poll_rounds-ends zero signal fds timeout s p = absurd (omega arith)
poll_rounds-ends (suc fuel) signal fds timeout s p =
    poll_round-ends (poll_rounds fuel signal fds timeout) fuel signal fds timeout s.waits s p
      (poll_rounds-ends fuel signal fds timeout)
