-- ===== src/Scheduler/Contract/Relinked.antt =====
-- Steps that change the pointers of the lists of triggers alone, and the invariant of the tick.
use ssm_runtime.Base.{
  ℕ, ◌≤◌, ◌<◌, ◌≡◌, refl, sym, ap, ◌∙◌, inl, true, List, [], ◌∷◌, arith, length, ℕ_discrete,
}
use mathlib.Core.Path.{subst}
use ssm_runtime.State.{State, Sv, Link, later_time_in}
use ssm_runtime.Queues.Acts.{ActInv}
use ssm_runtime.Queues.Events.{EventInv-same, pending}
use ssm_runtime.Queues.Roster.{Roster}
use ssm_runtime.Scheduler.{Limits, sensitize, desensitize, write_link}
use ssm_runtime.Scheduler.Wake.{Listed}
use ssm_runtime.Scheduler.Triggers.{Lists, Linked-Chain, without, sensitize-sv, sensitize-trigger}
use ssm_runtime.Scheduler.Triggers.Unlink.{without_first, without_later}
use ssm_runtime.Scheduler.Update.{TickInv}
use ssm_runtime.Scheduler.Instant.{Stepped}
use ssm_runtime.Scheduler.Tick.Quiet.{Quiet}

-- The pointers of the lists alone changed.
pub record Relinked (s s' : State) : Type 0 where
  pub frame : s' ≡ record s { sv = s'.sv; trigger = s'.trigger }
  pub vars : (p : ℕ) → s'.sv p ≡ record (s.sv p) { triggers = (s'.sv p).triggers }
  pub owners : (t : ℕ) → (s'.trigger t).act ≡ (s.trigger t).act

pub Listed-owners :
    (u : List ℕ) (s s' : State) (ts : List ℕ)
    → ((t : ℕ) → (s'.trigger t).act ≡ (s.trigger t).act)
    → Listed u s ts
    → Listed u s' ts
Listed-owners u s s' [] same h = h
Listed-owners u s s' (t ∷ ts) same h = (rw (same t) h.0, Listed-owners u s s' ts same h.1)

pub Listed-without :
    (u : List ℕ) (s : State) (trig : ℕ) (ts : List ℕ) → Listed u s ts → Listed u s (without trig ts)
Listed-without u s trig [] h = h
Listed-without u s trig (t ∷ ts) h = elim (ℕ_discrete t trig) [
  | yes e ↦ rw e (rw (without_first trig ts) h.1)
  | no e ↦ rw (without_later trig t ts e) (h.0, Listed-without u s trig ts h.1)
]

pub length-without : (trig : ℕ) (ts : List ℕ) → length (without trig ts) ≤ length ts
length-without trig [] = omega arith
length-without trig (t ∷ ts) = ground (arith, length-without trig ts)

pub sensitize-Relinked : (var trig : ℕ) (s : State) → Relinked s (sensitize var trig s)
unfolding sensitize
sensitize-Relinked var trig s = record {
  frame = ground arith;
  vars = λ p. ground (arith, sensitize-sv var trig s p);
  owners = λ t. ground (arith, sensitize-trigger var trig s t);
}

write_link-Relinked : (link : Link) (p : ℕ) (s : State) → Relinked s (write_link link p s)
unfolding write_link
write_link-Relinked (Link.triggers_of v) p s = record {
  frame = refl;
  vars = λ q. ground arith;
  owners = λ t. refl;
}
write_link-Relinked (Link.next_of w) p s = record {
  frame = refl;
  vars = λ q. refl;
  owners = λ t. ground arith;
}

desensitize_after :
    (trig : ℕ) (s : State)
    → desensitize trig s ≡ record (write_link (s.trigger trig).prev_ptr (s.trigger trig).next s) {
      sv = (desensitize trig s).sv;
      trigger = (desensitize trig s).trigger;
    }
unfolding desensitize
desensitize_after trig s = ground arith

pub desensitize-Relinked : (trig : ℕ) (s : State) → Relinked s (desensitize trig s)
unfolding desensitize
desensitize-Relinked trig s =
    let s1 = write_link (s.trigger trig).prev_ptr (s.trigger trig).next s in
    let d = write_link-Relinked (s.trigger trig).prev_ptr (s.trigger trig).next s in
    record {
      frame =
          desensitize_after trig s
          ∙ ap
              (λ (x : State). record x {
                sv = (desensitize trig s).sv;
                trigger = (desensitize trig s).trigger;
              })
              d.frame;
      vars = λ p. ground (arith, d.vars p);
      owners = λ t. ground (arith, d.owners t);
    }

module _ (l : Limits) (u : List ℕ) (rank : ℕ → ℕ) (ts ts' : ℕ → List ℕ) (s s' : State)
    (d : Relinked s s') (inv : TickInv l u rank ts s) (lists : Lists ts' s')
    (listed : (p : ℕ) → Listed u s' (ts' p)) (short : (p : ℕ) → length (ts' p) < l.triggers) where
  pub Relinked-TickInv : TickInv l u rank ts' s'
  Relinked-TickInv =
      let headers = ap (λ (t : State). t.mm) d.frame in
      let values = ap (λ (t : State). t.payload) d.frame in
      let clock = ap (λ (t : State). t.now) d.frame in
      record {
        events =
            EventInv-same s s' (ap (λ (t : State). t.event_queue) d.frame)
              (ap (λ (t : State). t.event_queue_len) d.frame)
              (λ p. ap (λ (v : Sv). v.later_time) (d.vars p)) inv.events;
        acts = subst ActInv (sym d.frame) (record {
          heap = inv.acts.heap;
          counted = inv.acts.counted;
          bounded = inv.acts.bounded;
        });
        roster =
            subst (Roster u) (sym d.frame)
              (record { small = inv.roster.small; listed = inv.roster.listed });
        sound = record {
          kinds = λ p. rw headers (inv.sound.kinds p);
          payloads = λ p i. rw (headers, values) (inv.sound.payloads p i);
          values = λ p e. ground (arith, d.vars p, inv.sound.values p, e);
          laters = λ p on e. ground (arith, d.vars p, inv.sound.laters p, on, e);
        };
        chains =
            λ p. Linked-Chain s' (Link.triggers_of p) (s'.sv p).triggers (ts' p) (lists.linked p);
        listed = listed;
        short = short;
        deep = inv.deep;
        clock = omega (arith, clock, inv.clock);
        range = λ p. ground (arith, d.vars p, inv.range p);
        future = λ p. ground (arith, d.vars p, clock, inv.future p);
      }

  pub Relinked-Stepped :
      (r : ℕ)
      → ((p : ℕ) → pending s p ≡ true → s.now < later_time_in s p)
      → Stepped (Quiet l u) u r s s'
  Relinked-Stepped r quiet =
      let acts = λ (a : ℕ). ap (λ (t : State). t.act a) d.frame in
      record {
        keeps = (
          (rank, ts', Relinked-TickInv),
          λ p on. ground (arith, d.vars p, ap (λ (t : State). t.now) d.frame, quiet p),
        );
        acts = Relinked-TickInv.acts;
        roster = Relinked-TickInv.roster;
        clock = ap (λ (t : State). t.now) d.frame;
        priorities = λ a. ground (arith, acts a);
        later = λ a on. inl (ground (arith, acts a));
      }
