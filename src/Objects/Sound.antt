-- ===== src/Objects/Sound.antt =====
-- What the objects of the heap must satisfy for a drop to return, and what a drop may change.
use ssm_runtime.Base.{
  ℕ, suc, ◌≤◌, ◌<◌, ◌≡◌, ◌⊎◌, refl, ap, ◌∙◌, inl, true, arith, ◌==◌, if◌then◌else◌,
}
use ssm_runtime.State.{
  State, Mm, Value, never, on_heap, adt_k, closure_k, array_k, blob_k, info_count, info_size,
  later_time_in, put_mm,
}
use ssm_runtime.Queues.Events.{EventInv, pending}
use ssm_runtime.Queues.Events.Remove.{Unscheduled}
use ssm_runtime.Objects.{free_object}

-- how many values of its payload an object owns
abbrev pub payload_count : Mm → ℕ
payload_count mm =
    if mm.kind == array_k
    then info_size mm
    else if mm.kind == adt_k
    then info_count mm
    else if mm.kind == closure_k
    then info_count mm
    else 0

-- A word that is a pointer leads to an object of a rank below `n`.
abbrev pub Below : (ℕ → ℕ) → ℕ → Value → Type 0
Below rank n v = on_heap v ≡ true → rank v < n

-- The heap is well founded: each object holds pointers to objects of lower rank alone, and every
-- header has a kind.
pub record Sound (rank : ℕ → ℕ) (s : State) : Type 0 where
  pub kinds : (p : ℕ) → (s.mm p).kind ≤ blob_k
  pub payloads : (p i : ℕ) → i < payload_count (s.mm p) → Below rank (rank p) (s.payload p i)
  pub values : (p : ℕ) → Below rank (rank p) (s.sv p).value
  pub laters : (p : ℕ) → pending s p ≡ true → Below rank (rank p) (s.sv p).later_value

-- What a drop of a value of a rank below `r` may change: reference counts, the allocator, and the
-- events of variables of a rank below `r`.
pub record Dropped (rank : ℕ → ℕ) (r : ℕ) (s s' : State) : Type 0 where
  pub inv : EventInv s'
  pub frame : s' ≡ record s {
    event_queue = s'.event_queue;
    event_queue_len = s'.event_queue_len;
    mm = s'.mm;
    sv = s'.sv;
    memory = s'.memory;
  }
  pub headers : (p : ℕ) → s'.mm p ≡ record (s.mm p) { ref_count = (s'.mm p).ref_count }
  pub vars : (p : ℕ) → s'.sv p ≡ record (s.sv p) { later_time = later_time_in s' p }
  pub times : (p : ℕ) → (later_time_in s' p ≡ later_time_in s p) ⊎ (later_time_in s' p ≡ never)
  pub kept : (p : ℕ) → r ≤ rank p → later_time_in s' p ≡ later_time_in s p
  pub root : r ≤ rank (s.event_queue 1) → s'.event_queue 1 ≡ s.event_queue 1
  pub shorter : s'.event_queue_len ≤ s.event_queue_len

module _ (rank : ℕ → ℕ) where
  pub Dropped-Sound : (r : ℕ) (s s' : State) → Sound rank s → Dropped rank r s s' → Sound rank s'
  Dropped-Sound r s s' sound d = record {
    kinds = λ p. ground (arith, sound.kinds p, d.headers p);
    payloads = λ p i h e.
        let same = ap (λ (t : State). t.payload p i) d.frame in
        let count : payload_count (s'.mm p) ≡ payload_count (s.mm p) =
          ap payload_count (d.headers p) in
        rw same (sound.payloads p i (omega arith) (rw same at e));
    values = λ p e. ground (arith, d.vars p, sound.values p);
    laters = λ p h e. ground (arith, d.vars p, d.times p, sound.laters p);
  }

  pub Dropped-trans :
      (r r1 r2 : ℕ) (s s1 s2 : State)
      → r1 ≤ r
      → r2 ≤ r
      → Dropped rank r1 s s1
      → Dropped rank r2 s1 s2
      → Dropped rank r s s2
  Dropped-trans r r1 r2 s s1 s2 h1 h2 d e = record {
    inv = e.inv;
    frame =
        e.frame
        ∙ ap
            (λ (t : State). record t {
              event_queue = s2.event_queue;
              event_queue_len = s2.event_queue_len;
              mm = s2.mm;
              sv = s2.sv;
              memory = s2.memory;
            })
            d.frame;
    headers = λ p. ground (arith, d.headers p, e.headers p);
    vars = λ p. ground (arith, d.vars p, e.vars p);
    times = λ p. ground (arith, d.times p, e.times p);
    kept = λ p q. ground (arith, d.kept p, e.kept p);
    root = λ h. ground (arith, d.root, e.root);
    shorter = omega (arith, d.shorter, e.shorter);
  }

  pub Dropped-self : (r : ℕ) (s : State) → EventInv s → Dropped rank r s s
  Dropped-self r s inv = record {
    inv = inv;
    frame = refl;
    headers = λ p. refl;
    vars = λ p. refl;
    times = λ p. inl refl;
    kept = λ p h. refl;
    root = λ h. refl;
    shorter = omega arith;
  }

  -- the event of the variable that is freed
  pub Unscheduled-Dropped :
      (v : ℕ) (s s' : State) → Unscheduled v s s' → Dropped rank (suc (rank v)) s s'
  Unscheduled-Dropped v s s' u = record {
    inv = u.inv;
    frame = simp (ap (λ (t : State). t.mm) u.only, ap (λ (t : State). t.memory) u.only) u.only;
    headers = λ p. rw (ap (λ (t : State). t.mm p) u.only);
    vars = λ p. ground (arith, u.vars p);
    times = λ p. ground (arith, u.vars p);
    kept = λ p h. ground (arith, u.vars p);
    root = λ h. u.root (λ e. absurd (omega (arith, ap rank e)));
    shorter = ground (arith, u.shorter);
  }

  -- only the reference count of one header changed
  pub put_count-Dropped :
      (r v n : ℕ) (s : State)
      → EventInv s
      → Dropped rank r s (put_mm v (record (s.mm v) { ref_count = n }) s)
  put_count-Dropped r v n s inv = record {
    inv = record { heap = inv.heap; counted = inv.counted; bounded = inv.bounded };
    frame = refl;
    headers = λ p. ground arith;
    vars = λ p. refl;
    times = λ p. inl refl;
    kept = λ p h. refl;
    root = λ h. refl;
    shorter = omega arith;
  }

  pub free-Dropped :
      (r v size : ℕ) (s : State) → EventInv s → Dropped rank r s (free_object v size s)
  free-Dropped r v size s inv = record {
    inv = record { heap = inv.heap; counted = inv.counted; bounded = inv.bounded };
    frame = refl;
    headers = λ p. refl;
    vars = λ p. refl;
    times = λ p. inl refl;
    kept = λ p h. refl;
    root = λ h. refl;
    shorter = omega arith;
  }
