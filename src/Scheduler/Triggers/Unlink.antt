-- ===== src/Scheduler/Triggers/Unlink.antt =====
-- What the two writes of `ssm_desensitize` do to one list of triggers.
use ssm_runtime.Base.{
  ℕ, ◌≡◌, ◌≢◌, ◌⊎◌, refl, sym, ◌∙◌, inl, inr, true, not, ◌&&◌, List, [], ◌∷◌, arith, ◌==◌,
  if◌then◌else◌, ℕ_discrete,
}
use ssm_runtime.State.{State, Link, null}
use ssm_runtime.Scheduler.{desensitize, write_link}
use ssm_runtime.Scheduler.Triggers.{Linked, has, Distinct, without}

-- `*link`
abbrev pub target : State → Link → ℕ
target s (Link.triggers_of v) = (s.sv v).triggers
target s (Link.next_of t) = (s.trigger t).next

-- what leads to a trigger of a list, and what comes behind it
pub Linked-prev :
    (s : State) (link : Link) (p : ℕ) (ts : List ℕ) (trig : ℕ)
    → Linked s link p ts
    → has trig ts ≡ true
    → ((s.trigger trig).prev_ptr ≡ link)
      ⊎ (w : ℕ) × ((s.trigger trig).prev_ptr ≡ Link.next_of w) × (has w ts ≡ true) × (w ≢ trig)
Linked-prev s link p [] trig h m = absurd (ground arith)
Linked-prev s link p (t ∷ ts) trig (at, real, prev, rest) m = elim (ℕ_discrete t trig) [
  | yes e ↦ inl (rw (← e) prev)
  | no e ↦ elim (Linked-prev s (Link.next_of t) (s.trigger t).next ts trig rest (ground arith)) [
    | inl f ↦ inr (t, f, ground arith, e)
    | inr (w, f, k, o) ↦ inr (w, f, ground arith, o)
  ]
]

pub Linked-next :
    (s : State) (link : Link) (p : ℕ) (ts : List ℕ) (trig : ℕ)
    → Linked s link p ts
    → has trig ts ≡ true
    → ((s.trigger trig).next ≢ null)
    → has (s.trigger trig).next ts ≡ true
Linked-next s link p [] trig h m real = absurd (ground arith)
Linked-next s link p (t ∷ []) trig (at, some_t, prev, rest) m real = ground (arith, rest)
Linked-next s link p (t ∷ x ∷ ts) trig (at, some_t, prev, rest) m real =
    ground (arith, rest.0, Linked-next s (Link.next_of t) (s.trigger t).next (x ∷ ts) trig rest)

target-write_link : (link : Link) (p : ℕ) (s : State) → target (write_link link p s) link ≡ p
unfolding write_link
target-write_link (Link.triggers_of v) p s = ground arith
target-write_link (Link.next_of w) p s = ground arith

target-write_link_other :
    (link other : Link) (p : ℕ) (s : State)
    → other ≢ link
    → target (write_link link p s) other ≡ target s other
unfolding write_link
target-write_link_other (Link.triggers_of v) (Link.triggers_of w) p s apart = ground arith
target-write_link_other (Link.triggers_of v) (Link.next_of w) p s apart = refl
target-write_link_other (Link.next_of v) (Link.triggers_of w) p s apart = refl
target-write_link_other (Link.next_of v) (Link.next_of w) p s apart = ground arith

write_link_prev :
    (link : Link) (p : ℕ) (s : State) (t : ℕ)
    → ((write_link link p s).trigger t).prev_ptr ≡ (s.trigger t).prev_ptr
unfolding write_link
write_link_prev (Link.triggers_of v) p s t = refl
write_link_prev (Link.next_of w) p s t = ground arith

-- Only the first write, which is to the link that leads to the trigger, changes where links lead.
target-desensitize :
    (trig : ℕ) (s : State) (link : Link)
    → target (desensitize trig s) link
      ≡ target (write_link (s.trigger trig).prev_ptr (s.trigger trig).next s) link
unfolding desensitize
target-desensitize trig s (Link.triggers_of v) = ground arith
target-desensitize trig s (Link.next_of w) = ground arith

-- a list whose triggers have their pointers as they were
pub pointers_frame :
    (s s' : State) (link : Link) (p : ℕ) (ts : List ℕ)
    → ((t : ℕ) → has t ts ≡ true → (s'.trigger t).next ≡ (s.trigger t).next)
    → ((t : ℕ) → has t ts ≡ true → (s'.trigger t).prev_ptr ≡ (s.trigger t).prev_ptr)
    → Linked s link p ts
    → Linked s' link p ts
pointers_frame s s' link p [] nexts prevs h = h
pointers_frame s s' link p (t ∷ ts) nexts prevs (at, real, prev, rest) = (
  at,
  real,
  rw (prevs t (ground arith)) prev,
  rw (nexts t (ground arith)) (
      pointers_frame s s' (Link.next_of t) (s.trigger t).next ts (λ x h. nexts x (ground arith))
        (λ x h. prevs x (ground arith)) rest),
)

-- a list that another link now leads to
pointers_relink :
    (s s' : State) (link link' : Link) (p : ℕ) (ts : List ℕ)
    → Distinct ts
    → ((t : ℕ) → has t ts ≡ true → (s'.trigger t).next ≡ (s.trigger t).next)
    → ((t : ℕ) → has t ts ≡ true → t ≢ p → (s'.trigger t).prev_ptr ≡ (s.trigger t).prev_ptr)
    → (p ≢ null → (s'.trigger p).prev_ptr ≡ link')
    → Linked s link p ts
    → Linked s' link' p ts
pointers_relink s s' link link' p [] d nexts prevs first h = h
pointers_relink s s' link link' p (t ∷ ts) (out, d) nexts prevs first (at, real, prev, rest) = (
  at,
  real,
  ground (arith, at, first),
  rw (nexts t (ground arith)) (
      pointers_frame s s' (Link.next_of t) (s.trigger t).next ts (λ x h. nexts x (ground arith))
        (λ x h. prevs x (ground arith) (ground (arith, at, out, h))) rest),
)

pub without_first : (trig : ℕ) (ts : List ℕ) → without trig (trig ∷ ts) ≡ ts
without_first trig ts = ground arith

pub without_later :
    (trig t : ℕ) (ts : List ℕ) → t ≢ trig → without trig (t ∷ ts) ≡ t ∷ without trig ts
without_later trig t ts e = ground arith

module _ (trig : ℕ) (s : State) (loose : Link.next_of trig ≢ (s.trigger trig).prev_ptr) where
  pub desensitize_prev :
      (t : ℕ)
      → ((desensitize trig s).trigger t).prev_ptr ≡ (
          if not ((s.trigger trig).next == null) && (s.trigger trig).next == t
          then (s.trigger trig).prev_ptr
          else (s.trigger t).prev_ptr)
  unfolding desensitize
  desensitize_prev t =
      let link = (s.trigger trig).prev_ptr in
      let p = (s.trigger trig).next in
      let s1 = write_link link p s in
      let next : (s1.trigger trig).next ≡ p =
        target-write_link_other link (Link.next_of trig) p s loose in
      ground (arith, next, write_link_prev link p s trig, write_link_prev link p s t)

  desensitize_here : target (desensitize trig s) (s.trigger trig).prev_ptr ≡ (s.trigger trig).next
  desensitize_here =
      let link = (s.trigger trig).prev_ptr in
      target-desensitize trig s link ∙ target-write_link link (s.trigger trig).next s

  pub desensitize_elsewhere :
      (other : Link)
      → other ≢ (s.trigger trig).prev_ptr
      → target (desensitize trig s) other ≡ target s other
  desensitize_elsewhere other apart =
      let link = (s.trigger trig).prev_ptr in
      target-desensitize trig s other
      ∙ target-write_link_other link other (s.trigger trig).next s apart

  -- the first trigger of a list
  removed_first :
      (link : Link) (ts : List ℕ)
      → (s.trigger trig).prev_ptr ≡ link
      → Linked s (Link.next_of trig) (s.trigger trig).next ts
      → Distinct ts
      → ((t : ℕ) → has t ts ≡ true → link ≢ Link.next_of t)
      → Linked (desensitize trig s) link (target (desensitize trig s) link) ts
  removed_first link ts at rest d own =
      let s' = desensitize trig s in
      let next = (s.trigger trig).next in
      rw (← at) (
        rw desensitize_here (
          pointers_relink s s' (Link.next_of trig) (s.trigger trig).prev_ptr next ts d
            (λ t h. desensitize_elsewhere (Link.next_of t) (λ e. own t h (sym at ∙ sym e)))
            (λ t h apart. ground (arith, desensitize_prev t))
            (λ real. ground (arith, desensitize_prev next)) rest))

  -- a trigger behind the first one, `t`
  removed_behind :
      (link : Link) (t : ℕ) (ts : List ℕ)
      → Linked s link (target s link) (t ∷ ts)
      → has trig ts ≡ true
      → Distinct (t ∷ ts)
      → ((x : ℕ) → has x (t ∷ ts) ≡ true → link ≢ Link.next_of x)
      → (target (desensitize trig s) link ≡ t) × (((desensitize trig s).trigger t).prev_ptr ≡ link)
  removed_behind link t ts (at, real, prev, rest) m (out, d) own =
      let next = (s.trigger trig).next in
      let apart : link ≢ (s.trigger trig).prev_ptr =
        elim (Linked-prev s (Link.next_of t) (s.trigger t).next ts trig rest m) [
          | inl f ↦ λ e. own t (ground arith) (e ∙ f)
          | inr (w, f, k, o) ↦ λ e. own w (ground arith) (e ∙ f)
        ] in
      (
        desensitize_elsewhere link apart ∙ at,
        ground (
          arith,
          desensitize_prev t,
          Linked-next s (Link.next_of t) (s.trigger t).next ts trig rest m,
        ),
      )

  removed_cons :
      (link : Link) (t : ℕ) (ts : List ℕ)
      → Linked s link (target s link) (t ∷ ts)
      → has trig (t ∷ ts) ≡ true
      → Distinct (t ∷ ts)
      → ((x : ℕ) → has x (t ∷ ts) ≡ true → link ≢ Link.next_of x)
      → (has trig ts ≡ true
          → Linked
              (desensitize trig s)
              (Link.next_of t)
              ((desensitize trig s).trigger t).next
              (without trig ts))
      → Linked (desensitize trig s) link (target (desensitize trig s) link) (without trig (t ∷ ts))
  removed_cons link t ts (at, real, prev, rest) m (out, d) own rec = elim (ℕ_discrete t trig) [
    | yes e ↦ rw e (
        rw (without_first trig ts)
          (removed_first link ts (rw (← e) prev) (rw (← e) rest) d (λ x k. own x (ground arith))))
    | no e ↦
        let k : has trig ts ≡ true = ground arith in
        let (at', prev') = removed_behind link t ts (at, real, prev, rest) k (out, d) own in
        rw (without_later trig t ts e) (at', real, prev', rec k)
  ]

  pub removed :
      (link : Link) (ts : List ℕ)
      → Linked s link (target s link) ts
      → has trig ts ≡ true
      → Distinct ts
      → ((t : ℕ) → has t ts ≡ true → link ≢ Link.next_of t)
      → Linked (desensitize trig s) link (target (desensitize trig s) link) (without trig ts)
  removed link [] h m d own = absurd (ground arith)
  removed link (t ∷ ts) (at, real, prev, rest) m (out, d) own =
      removed_cons link t ts (at, real, prev, rest) m (out, d) own
        (λ k. removed (Link.next_of t) ts rest k d (λ x h e. ground (arith, e)))
