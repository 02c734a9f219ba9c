-- ===== src/Examples/Cons/Resume.antt =====
-- How a call of map_inc of list.c ends when the call for the tail leaves.
use ssm_runtime.Base.{
  ℕ, suc, ◌+◌, ◌≤◌, ◌<◌, ◌≡◌, ◌≢◌, ◌⊎◌, sym, ap, ◌∙◌, false, List, [], ◌∷◌, ok, ◌>>=◌, arith,
}
use ssm_runtime.Memory.{Handlers, Memory, mem_alloc, mem_free, find_pool_size}
use ssm_runtime.Memory.FreeList.{FreeList, member}
use ssm_runtime.Memory.Reuse.{mem_alloc-FreeList, mem_free-FreeList}
use ssm_runtime.State.{State, Mm, Act, Value}
use ssm_runtime.Scheduler.{Limits, Steps, leave}
use ssm_runtime.Scheduler.Join.{All}
use ssm_runtime.Examples.{field, cell}
use ssm_runtime.Examples.Cons.{map_return, step_map_inc, program}
use ssm_runtime.Examples.Cons.Lists.{
  inc, incs, IsList, Apart, Clear, All-map, All-both, IsList-frame, field-Clear, Apart-Clear,
}
use ssm_runtime.Examples.Cons.Return.{left, leave_run, built, map_return_run}
use ssm_runtime.Examples.Cons.Next.{
  Starts, Mapped, given_up, next, tail, next-acts, next-child, next-parent, next-payloads,
  next-item, next-target, tail-Held, given_up-next,
}

head_real :
    (m : Memory) (bs : List ℕ) → FreeList m 1 bs → All (λ b. b ≢ 0) bs → m.free_list_head 1 ≢ 0
head_real m [] free real = ground (arith, free)
head_real m (b ∷ bs) free real = rw free.0 real.0

-- the record of the child is given back, and its block is the one of the new object
pub block_again :
    (h : Handlers) (b : ℕ) (m : Memory) (rest : List ℕ)
    → b ≢ 66
    → member b rest ≡ false
    → All (λ b. b ≢ 0) rest
    → FreeList m 1 rest
    → (m' : Memory) × (mem_alloc h 24 (mem_free b 64 m) ≡ ok (b, m')) × FreeList m' 1 rest
unfolding find_pool_size
block_again h b m rest high absent real free =
    let (freed, others) =
      mem_free-FreeList b 64 m rest (omega arith) high absent (head_real m rest free real) free in
    let (m', run, free', heads, links, live) =
      mem_alloc-FreeList h 24 b (mem_free b 64 m) rest (omega arith) freed in
    (m', run, free')

resume_run :
    (h : Handlers) (l : Limits) (above : Steps) (act : ℕ) (s : State)
    → (s.act act).pc ≡ 1
    → step_map_inc h l above act s ≡ (map_return h l above act s >>= leave above act 64)
unfolding step_map_inc
resume_run h l above act s at = ground (arith, at)

module _ (h : Handlers) (l : Limits) (fuel : ℕ) (act w ret x b : ℕ) (xs : List Value)
    (vs bs rest : List ℕ) (s : State) (d : Starts act w ret (x ∷ xs) (w ∷ vs) (b ∷ bs) rest s)
    (m : Memory) (t : State)
    (e : Mapped b
      (tail act w ret x b xs vs bs rest s d m)
      (field act 2)
      xs
      bs
      rest
      (next act w ret x b xs vs bs rest s d m)
      t) where
  abbrev n : State
  n = next act w ret x b xs vs bs rest s d m

  parent : t.act act ≡ record (s.act act) { pc = 1; children = 1 }
  parent =
      e.acts act (ground (arith, d.spaced.2.0)) (Apart-Clear act bs d.spaced.2.1)
      ∙ next-parent act w ret x b xs vs bs rest s d m

  pub returned :
      (m' : Memory)
      → mem_alloc h 24 (mem_free b 64 t.memory) ≡ ok (b, m')
      → leave (program h l (suc fuel)) b 64 t
        ≡ leave (program h l fuel) act 64 (built act ret b m' (left act b t))
  returned m' run =
      let caller : (t.act b).caller ≡ act =
        ap (λ (a : Act). a.caller) e.self
        ∙ ap (λ (a : Act). a.caller) (next-child act w ret x b xs vs bs rest s d m) in
      let at : cell (field act 3) (left act b t) ≡ ret =
        ap (λ (f : ℕ → Value). f 0)
          (e.payloads (field act 3) (field-Clear act 3 (b ∷ bs) (omega arith) d.spaced.2)
            (omega arith))
        ∙ next-target act w ret x b xs vs bs rest s d m in
      leave_run h l fuel act b t caller (ground (arith, parent)) (ground (arith, parent, d.step))
      ∙ resume_run h l (program h l fuel) act (left act b t) (ground (arith, parent))
      ∙ ap (λ r. r >>= leave (program h l fuel) act 64)
          (map_return_run h l (program h l fuel) act ret b m' (left act b t) at
            (ground (arith, d.outside.0)) (ground (arith, d.outside.0))
            (ground (arith, d.outside.0)) (ground (arith, d.outside.1.0))
            (ground (arith, d.spaced.2.0)) (ground (arith, d.spaced.2.0)) run)

  module _ (m' : Memory) (free : FreeList m' 1 rest) where
    abbrev pub end : State
    end = built act ret b m' (left act b t)

    end-headers : (p : ℕ) → p ≢ b → end.mm p ≡ t.mm p
    end-headers p apart = ground (arith, apart)

    end-payloads : (p : ℕ) → p ≢ b → p ≢ ret → end.payload p ≡ t.payload p
    end-payloads p e1 e2 = ground (arith, e1, e2)

    end-item : end.payload b 0 ≡ inc (s.payload w 0)
    end-item =
        let kept : t.payload (field act 1) ≡ n.payload (field act 1) =
          e.payloads (field act 1) (field-Clear act 1 (b ∷ bs) (omega arith) d.spaced.2)
            (omega arith) in
        ground (arith, kept, next-item act w ret x b xs vs bs rest s d m)

    end-tail : end.payload b 1 ≡ cell (field act 2) t
    end-tail = ground arith

    end-ret : cell ret end ≡ b
    end-ret = ground (arith, d.outside.1.0)

    -- the objects of the tail's list
    end-kept : All (λ p. (end.mm p ≡ t.mm p) × (end.payload p ≡ t.payload p)) bs
    end-kept =
        All-both
          (λ p (apart : Apart b p) (off : (ret < p) ⊎ (p + 64 ≤ ret)). (
            end-headers p (ground (arith, apart)),
            end-payloads p (ground (arith, apart)) (ground (arith, off)),
          ))
          bs d.spaced.3.2 d.outside.1.1

    end-IsList : IsList end (cell ret end) (b ∷ bs) (inc x ∷ incs xs)
    end-IsList = (
      end-ret,
      d.spaced.3.1,
      ground arith,
      end-item ∙ ap inc d.list.3,
      rw end-tail (
          IsList-frame t end (cell (field act 2) t) bs (incs xs)
            (All-map
              (λ p (k : (end.mm p ≡ t.mm p) × (end.payload p ≡ t.payload p)).
                (ap (λ (h : Mm). h.info) k.0, k.1))
              bs end-kept)
            e.list),
    )

    end-count : (p : ℕ) → Clear (b ∷ bs) p → end.mm p ≡ given_up w s p
    end-count p clear =
        end-headers p (ground (arith, clear.0))
        ∙ e.headers p clear.1
        ∙ given_up-next act w ret x b xs vs bs rest s d m
            (tail-Held act w ret x b xs vs bs rest s d m vs xs d.list.4 d.distinct d.held.2) p

    pub Mapped-end : Mapped act w ret (x ∷ xs) (b ∷ bs) rest s end
    Mapped-end = record {
      frame =
          ap
            (λ (y : State). record y {
              act_queue = end.act_queue;
              num_processes = end.num_processes;
              mm = end.mm;
              act = end.act;
              payload = end.payload;
              memory = end.memory;
            })
            e.frame
          ∙ ap
              (λ (k : ℕ). record s {
                act_queue = end.act_queue;
                act_queue_len = k;
                num_processes = end.num_processes;
                mm = end.mm;
                act = end.act;
                payload = end.payload;
                memory = end.memory;
              })
              (sym d.idle);
      list = end-IsList;
      fresh = (
        ground arith,
        All-both
            (λ p (k : (end.mm p ≡ t.mm p) × (end.payload p ≡ t.payload p)) c.
              ap (λ (h : Mm). h.ref_count) k.0 ∙ c)
            bs end-kept e.fresh,
      );
      free = free;
      self = ground (arith, parent, d.alone);
      acts = λ a other clear. ground (
        arith,
        clear.0,
        e.acts a (ground (arith, clear.0)) clear.1,
        next-acts act w ret x b xs vs bs rest s d m a other (ground (arith, clear.0)),
      );
      headers = end-count;
      payloads = λ p clear other.
          end-payloads p (ground (arith, clear.1.0)) other
          ∙ e.payloads p clear.1 (ground (arith, clear.0))
          ∙ next-payloads act w ret x b xs vs bs rest s d m p (clear.0, (clear.1.0, tt));
    }
