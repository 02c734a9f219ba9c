-- ===== src/Objects/Drop.antt =====
-- Dropping a reference: it returns, it keeps the event queue well formed, and it unschedules no
-- variable that holds the dropped value.
use ssm_runtime.Base.{
  ℕ, zero, suc, ◌+◌, ◌*◌, ◌≤◌, ◌<◌, ◌≡◌, ◌⊎◌, refl, inl, inr, Result, ok, arith, ◌==◌, ◌>>=◌,
  Bool-cases,
}
use ssm_runtime.State.{
  State, Value, never, on_heap, time_k, adt_k, sv_k, closure_k, array_k, blob_k, info_count,
  info_cap, info_size, later_time_in, put_mm,
}
use ssm_runtime.Queues.{unschedule}
use ssm_runtime.Queues.Events.{EventInv}
use ssm_runtime.Queues.Events.Remove.{unschedule-Unscheduled}
use ssm_runtime.Objects.{
  sizeof_sv, sizeof_time, adt_size, closure_size, array_size, blob_size, blob_size_scale,
  free_object, drops_with, drop_final_with, drop_unsafe_with, drop, decr8,
}
use ssm_runtime.Objects.Sound.{
  payload_count, Below, Sound, Dropped, Dropped-Sound, Dropped-trans, Dropped-self,
  Unscheduled-Dropped, put_count-Dropped, free-Dropped,
}

kind-cases :
    (k : ℕ)
    → k ≤ blob_k
    → (k ≡ time_k) ⊎ (k ≡ adt_k) ⊎ (k ≡ sv_k) ⊎ (k ≡ closure_k) ⊎ (k ≡ array_k) ⊎ (k ≡ blob_k)
kind-cases k h = omega arith

module _ (rank : ℕ → ℕ) where
  -- what is to be shown of a drop of `v`, by a call that changes ranks below `r` alone
  abbrev pub Drops : (State → Result State) → ℕ → State → Type 0
  Drops run r s = (s' : State) × (run s ≡ ok s') × Dropped rank r s s'

  -- a drop function that is known for the values of a rank below `k`
  abbrev pub DropsBelow : (Value → State → Result State) → ℕ → Type 0
  DropsBelow drop_value k =
      (v : Value) (s : State)
      → Below rank k v
      → EventInv s
      → Sound rank s
      → Drops (drop_value v) k s

  drops_with-Dropped :
      (drop_value : Value → State → Result State) (k : ℕ)
      → DropsBelow drop_value k
      → (cnt i : ℕ) (arr : ℕ → Value) (s : State)
      → ((j : ℕ) → i ≤ j → j < i + cnt → Below rank k (arr j))
      → EventInv s
      → Sound rank s
      → Drops (drops_with drop_value cnt i arr) k s
  unfolding drops_with
  drops_with-Dropped drop_value k known zero i arr s below inv sound =
      (s, refl, Dropped-self rank k s inv)
  drops_with-Dropped drop_value k known (suc cnt) i arr s below inv sound =
      let (s1, run1, d1) = known (arr i) s (below i (omega arith) (omega arith)) inv sound in
      let (s2, run2, d2) =
        drops_with-Dropped drop_value k known cnt (i + 1) arr s1
          (λ j a b. below j (omega arith) (omega arith)) d1.inv
          (Dropped-Sound rank k s s1 sound d1) in
      (s2, rw run1 run2, Dropped-trans rank k k k s s1 s2 (omega arith) (omega arith) d1 d2)

  final_sv-run :
      (drop_value : Value → State → Result State) (v : ℕ) (s s1 s2 : State)
      → (s.mm v).kind ≡ sv_k
      → unschedule v s ≡ ok s1
      → drop_value (s1.sv v).value s1 ≡ ok s2
      → later_time_in s2 v ≡ never
      → drop_final_with drop_value v s ≡ ok (free_object v sizeof_sv s2)
  unfolding drop_final_with
  final_sv-run drop_value v s s1 s2 is run1 run2 idle = ground arith

  -- A variable is unscheduled before its values are dropped, so the test of its `later_time` fails
  -- and its `later_value` stays as it is.
  final_sv-Dropped :
      (drop_value : Value → State → Result State) (v : ℕ) (s : State)
      → DropsBelow drop_value (rank v)
      → (s.mm v).kind ≡ sv_k
      → EventInv s
      → Sound rank s
      → Drops (drop_final_with drop_value v) (suc (rank v)) s
  final_sv-Dropped drop_value v s known is inv sound =
      let (s1, run1, u1) = unschedule-Unscheduled v s inv in
      let d1 = Unscheduled-Dropped rank v s s1 u1 in
      let sound1 = Dropped-Sound rank (suc (rank v)) s s1 sound d1 in
      let (s2, run2, d2) = known (s1.sv v).value s1 (sound1.values v) u1.inv sound1 in
      let idle : later_time_in s2 v ≡ never = ground (arith, d2.kept v, u1.vars v) in
      let s3 = free_object v sizeof_sv s2 in
      let d3 = free-Dropped rank 0 v sizeof_sv s2 d2.inv in
      (
        s3,
        final_sv-run drop_value v s s1 s2 is run1 run2 idle,
        Dropped-trans rank (suc (rank v)) (suc (rank v)) (rank v) s s1 s3 (omega arith)
            (omega arith) d1
            (Dropped-trans rank (rank v) (rank v) 0 s1 s2 s3 (omega arith) (omega arith) d2 d3),
      )

  module _ (drop_value : Value → State → Result State) (v : ℕ)
      (known : DropsBelow drop_value (rank v)) where
    -- the cases of an object that owns values: its payload, then its block
    freed-Dropped :
        (cnt size : ℕ) (s : State)
        → cnt ≤ payload_count (s.mm v)
        → EventInv s
        → Sound rank s
        → Drops
            (λ t. drops_with drop_value cnt 0 (s.payload v) t >>= λ t'. ok (free_object v size t'))
            (suc (rank v))
            s
    freed-Dropped cnt size s h inv sound =
        let (s1, run1, d1) =
          drops_with-Dropped drop_value (rank v) known cnt 0 (s.payload v) s
            (λ j a b. sound.payloads v j (omega arith)) inv sound in
        (
          free_object v size s1,
          rw run1,
          Dropped-trans rank (suc (rank v)) (rank v) 0 s s1 (free_object v size s1) (omega arith)
              (omega arith) d1 (free-Dropped rank 0 v size s1 d1.inv),
        )

    plain-Dropped :
        (size : ℕ) (s : State)
        → EventInv s
        → Drops (λ t. ok (free_object v size t)) (suc (rank v)) s
    plain-Dropped size s inv =
        (free_object v size s, refl, free-Dropped rank (suc (rank v)) v size s inv)

    -- `ssm_drop_final` returns, whatever the kind of the object
    final-Dropped :
        (s : State)
        → EventInv s
        → Sound rank s
        → Drops (drop_final_with drop_value v) (suc (rank v)) s
    unfolding drop_final_with
    final-Dropped s inv sound = elim (kind-cases (s.mm v).kind (sound.kinds v)) [
      | inl e ↦ let (s', run, d) = plain-Dropped sizeof_time s inv in (s', ground (arith, run), d)
      | inr (inl e) ↦
          let size = adt_size (info_count (s.mm v)) in
          let (s', run, d) = freed-Dropped (info_count (s.mm v)) size s (ground arith) inv sound in
          (s', ground (arith, run), d)
      | inr (inr (inl e)) ↦ final_sv-Dropped drop_value v s known e inv sound
      | inr (inr (inr (inl e))) ↦
          let size = closure_size (info_cap (s.mm v)) in
          let (s', run, d) = freed-Dropped (info_count (s.mm v)) size s (ground arith) inv sound in
          (s', ground (arith, run), d)
      | inr (inr (inr (inr (inl e)))) ↦
          let size = array_size (info_size (s.mm v)) in
          let (s', run, d) = freed-Dropped (info_size (s.mm v)) size s (ground arith) inv sound in
          (s', ground (arith, run), d)
      | inr (inr (inr (inr (inr e)))) ↦
          let size = blob_size (info_size (s.mm v) * blob_size_scale) in
          let (s', run, d) = plain-Dropped size s inv in (s', ground (arith, run), d)
    ]

  -- a call of `ssm_drop_unsafe`, with `final` for the last reference
  unsafe-Dropped :
      (final : Value → State → Result State) (v r : ℕ) (s : State)
      → rank v < r
      → EventInv s
      → Sound rank s
      → ((t : State) → EventInv t → Sound rank t → Drops (final v) (suc (rank v)) t)
      → Drops (drop_unsafe_with final v) r s
  unfolding drop_unsafe_with
  unsafe-Dropped final v r s below inv sound known =
      let n = decr8 (s.mm v).ref_count in
      let s1 = put_mm v (record (s.mm v) { ref_count = n }) s in
      let d1 = put_count-Dropped rank r v n s inv in
      let (s2, run2, d2) = known s1 d1.inv (Dropped-Sound rank r s s1 sound d1) in
      elim (Bool-cases (n == 0)) [
        | inl last ↦ (
          s2,
          rw last run2,
          Dropped-trans rank r r (suc (rank v)) s s1 s2 (omega arith) (omega arith) d1 d2,
        )
        | inr shared ↦ (s1, rw shared refl, d1)
      ]

  -- Dropping a value returns where the references are well founded by a rank that the fuel and a
  -- bound exceed at the value, and the event queue is well formed. The queue stays well formed,
  -- and no more changes than reference counts, the allocator, and events that are lost, those of
  -- variables below the bound alone.
  pub drop-Dropped :
      (fuel r : ℕ) (v : Value) (s : State)
      → Below rank fuel v
      → Below rank r v
      → EventInv s
      → Sound rank s
      → Drops (drop fuel v) r s
  unfolding drop
  drop-Dropped zero r v s enough below inv sound = (s, ground arith, Dropped-self rank r s inv)
  drop-Dropped (suc fuel) r v s enough below inv sound = elim (Bool-cases (on_heap v)) [
    | inr packed ↦ (s, rw packed refl, Dropped-self rank r s inv)
    | inl pointer ↦
        let (s', run, d) =
          unsafe-Dropped (drop_final_with (drop fuel)) v r s (below pointer) inv sound (
            final-Dropped (drop fuel) v (λ c t b i h.
              drop-Dropped fuel (rank v) c t (λ e. omega (arith, enough pointer, b e)) b i h)) in
        (s', rw pointer run, d)
  ]
