-- ===== src/TestClient/Cache/Invariant.antt =====
-- The invariant between a writer and a reader of a `CacheData` of
-- python_plugins/tests/lib/test_client.py.
use sonic_device_health_prtm.Prelude.{
  List, Option, ℕ, ◌∷◌, [], none, ◌<◌, ◌≡◌, some, length, ◌≤◌, ◌+◌, ◌++◌, length-append, arith, sym,
  ◌∙◌, subst,
}
use sonic_device_health_prtm.TestClient.Cache.Channel.{
  Channel, Writer, Reader, r_moving, w_storing, r_counting, w_moving, r_idle, w_counting, r_testing,
  w_idle, w_signalling, r_copying, r_failed,
}
use sonic_device_health_prtm.TestClient.Cache.{bump}
use sonic_device_health_prtm.TestClient.Cache.Slots.{slot, Holds, slot-bump}

abbrev pub first : {D : Type 0} → List D → Option D
first [] = none
first (d ∷ _) = some d

abbrev pub rest : {D : Type 0} → List D → List D
rest [] = []
rest (_ ∷ q) = q

module _ {D : Type 0} where
  -- Where the writer's index `i` stands, `n` messages being counted from index `h` on.
  abbrev pub WriterAt : ℕ → (ℕ → Option D) → ℕ → ℕ → ℕ → Writer D → Type 0
  WriterAt limit cells i h n w_idle = i ≡ slot limit h n
  WriterAt limit cells i h n w_signalling = i ≡ slot limit h n
  WriterAt limit cells i h n (w_storing d) = (n < limit) × (i ≡ slot limit h n)
  WriterAt limit cells i h n (w_moving d) =
      (n < limit) × (i ≡ slot limit h n) × (cells (slot limit h n) ≡ some d)
  WriterAt limit cells i h n (w_counting d) =
      (n < limit) × (i ≡ slot limit h (n + 1)) × (cells (slot limit h n) ≡ some d)

  -- Where the reader's index `i` stands, the messages `q` lying from index `h` on.
  abbrev pub ReaderAt : ℕ → ℕ → ℕ → List D → Reader D → Type 0
  ReaderAt limit i h q r_idle = i ≡ h
  ReaderAt limit i h q r_testing = i ≡ h
  ReaderAt limit i h q r_copying = (i ≡ h) × (0 < length q)
  ReaderAt limit i h q (r_moving d) = (i ≡ h) × (first q ≡ some d)
  ReaderAt limit i h q (r_counting d) = (i ≡ bump limit h) × (first q ≡ some d)
  ReaderAt limit i h q r_failed = ⊥

  pub record Ordered (s : Channel D) (h : ℕ) (q : List D) : Type 0 where
    pub start : h < s.cache.limit
    pub fits : length q ≤ s.cache.limit
    pub counts : s.cache.wr_cnt ≡ s.cache.rd_cnt + length q
    pub holds : Holds s.cache.limit s.cache.cells h q
    pub order : s.written ≡ s.taken ++ q
    pub writes : WriterAt s.cache.limit s.cache.cells s.cache.wr_index h (length q) s.writer
    pub reads : ReaderAt s.cache.limit s.cache.rd_index h q s.reader

  -- The index and the messages between the threads.
  abbrev pub IsOrdered : Channel D → Type 0
  IsOrdered s = (h : ℕ) × (q : List D) × Ordered s h q

  pub snoc_length : (q : List D) (d : D) → length (q ++ (d ∷ [])) ≡ length q + 1
  snoc_length q d = length-append q (d ∷ [])

  first-append : (q : List D) (d x : D) → first q ≡ some x → first (q ++ (d ∷ [])) ≡ some x
  first-append [] d x e = ground (arith, e)
  first-append (y ∷ q) d x e = e

  -- A message more behind the others leaves the reader where it is.
  pub ReaderAt-append :
      (limit i h : ℕ) (q : List D) (d : D) (r : Reader D)
      → ReaderAt limit i h q r
      → ReaderAt limit i h (q ++ (d ∷ [])) r
  ReaderAt-append limit i h q d r_idle p = p
  ReaderAt-append limit i h q d r_testing p = p
  ReaderAt-append limit i h q d r_copying p = (p.0, omega (arith, snoc_length q d))
  ReaderAt-append limit i h q d (r_moving x) p = (p.0, first-append q d x p.1)
  ReaderAt-append limit i h q d (r_counting x) p = (p.0, first-append q d x p.1)
  ReaderAt-append limit i h q d r_failed p = p

  -- A message less in front moves the start, and leaves the writer's slot.
  pub WriterAt-rest :
      (limit : ℕ) (cells : ℕ → Option D) (i h n : ℕ) (w : Writer D)
      → h < limit
      → n + 1 ≤ limit
      → WriterAt limit cells i h (n + 1) w
      → WriterAt limit cells i (bump limit h) n w
  WriterAt-rest limit cells i h n w_idle p f e = e ∙ sym (slot-bump limit h n p (omega arith))
  WriterAt-rest limit cells i h n w_signalling p f e = e ∙ sym (slot-bump limit h n p (omega arith))
  WriterAt-rest limit cells i h n (w_storing d) p f e =
      (omega (arith, e.0), e.1 ∙ sym (slot-bump limit h n p (omega arith)))
  WriterAt-rest limit cells i h n (w_moving d) p f e =
      let same = sym (slot-bump limit h n p (omega arith)) in
      (omega (arith, e.0), e.1 ∙ same, subst (λ j. cells j ≡ some d) same e.2)
  WriterAt-rest limit cells i h n (w_counting d) p f e =
      let same = sym (slot-bump limit h n p (omega arith)) in
      (
        omega (arith, e.0),
        e.1 ∙ sym (slot-bump limit h (n + 1) p (omega (arith, e.0))),
        subst (λ j. cells j ≡ some d) same e.2,
      )

  pub find_first :
      (limit : ℕ) (cells : ℕ → Option D) (h : ℕ) (q : List D)
      → 0 < length q
      → Holds limit cells h q
      → first q ≡ cells h
  find_first limit cells h [] p holds = absurd (omega arith)
  find_first limit cells h (d ∷ q) p holds = sym holds.0
