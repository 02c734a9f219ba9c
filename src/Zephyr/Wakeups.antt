-- ===== src/Zephyr/Wakeups.antt =====
-- Sleeping and waking on the Zephyr platform: `tick_loop`, `ssm_insert_input` and
-- `send_timeout_event` of platform/zephyr/src/zephyr-tick.c, with the alarm of zephyr-timer.c, as steps
-- of the loop's thread and of interrupts that come between them. The kernel's semaphore is not in the
-- repository; the interface says what the code relies on.
use ssm_runtime.Base.{
  ℕ, ◌+◌, ◌%◌, ◌^◌, ◌≡◌, ◌≢◌, ◌⊎◌, refl, inl, inr, Bool, true, false, Option, some, none, arith,
}
use ssm_runtime.Zephyr.Timer.{Timer, Status, timer_set_alarm, timer_cancel, counter_alarm_callback}

-- ssm_tick_sem: a take returns where the count is not 0, and a give leaves such a count.
pub record Semaphore : Type 1 where
  pub Sem : Type 0
  pub available : Sem → Bool
  pub give : Sem → Sem
  pub take : Sem → Sem
  pub reset : Sem → Sem
  pub available-give : (c : Sem) → available (give c) ≡ true

-- Where an interrupt of `ssm_insert_input` stands: after `atomic_set(&rb_w, w + 1)` it has yet to give the
-- semaphore.
pub data Interrupt : Type 0 where
  idle posting : Interrupt

-- Where the loop stands, with the write index that it polled last.
pub data Loop : Type 0 where
  start : Loop
  polled : (w : ℕ) → Loop
  waiting : (w : ℕ) → Loop
  waiting_for_alarm : (w : ℕ) → Loop
  woken : Loop
  cancelled : Loop
  failed : Loop

module _ (k : Semaphore) (send_timeout_event : ℕ) (counter_set_channel_alarm : ℕ → Status)
    (counter_cancel_channel_alarm : Status) where
  open k use {Sem, available, give, take, reset}

  pub record Board : Type 0 where
    pub rb_w : ℕ
    pub sem : Sem
    pub timer : Timer
    pub interrupt : Interrupt
    pub loop : Loop

  -- The program decides whether there is something to tick, and when the next event is.
  pub data Step (b : Board) : Board → Type 0 where
    publish :
        b.interrupt ≡ Interrupt.idle
        → Step b (record b { rb_w = b.rb_w + 1; interrupt = Interrupt.posting })
    post :
        b.interrupt ≡ Interrupt.posting
        → Step b (record b { sem = give b.sem; interrupt = Interrupt.idle })
    fire :
        (counter_alarm_callback b.timer).0 ≡ some send_timeout_event
        → Step b (record b { sem = give b.sem; timer = (counter_alarm_callback b.timer).1 })
    poll : b.loop ≡ Loop.start → Step b (record b { loop = Loop.polled b.rb_w })
    tick : {w : ℕ} → b.loop ≡ Loop.polled w → Step b (record b { loop = Loop.start })
    sleep : {w : ℕ} → b.loop ≡ Loop.polled w → Step b (record b { loop = Loop.waiting w })
    set_alarm :
        {w : ℕ} (next_time : ℕ)
        → b.loop ≡ Loop.polled w
        → (timer_set_alarm counter_set_channel_alarm next_time send_timeout_event b.timer).0
          ≡ Status.done
        → Step b (record b {
          timer =
              (timer_set_alarm counter_set_channel_alarm next_time send_timeout_event b.timer).1;
          loop = Loop.waiting_for_alarm w;
        })
    set_alarm_fails :
        {w : ℕ} (next_time : ℕ)
        → b.loop ≡ Loop.polled w
        → (timer_set_alarm counter_set_channel_alarm next_time send_timeout_event b.timer).0
          ≢ Status.done
        → Step b (record b {
          timer =
              (timer_set_alarm counter_set_channel_alarm next_time send_timeout_event b.timer).1;
          loop = Loop.failed;
        })
    wake :
        {w : ℕ}
        → b.loop ≡ Loop.waiting w
        → available b.sem ≡ true
        → Step b (record b { sem = take b.sem; loop = Loop.start })
    wake_with_alarm :
        {w : ℕ}
        → b.loop ≡ Loop.waiting_for_alarm w
        → available b.sem ≡ true
        → Step b (record b { sem = take b.sem; loop = Loop.woken })
    cancel :
        b.loop ≡ Loop.woken
        → Step b (record b {
          timer = (timer_cancel counter_cancel_channel_alarm b.timer).1;
          loop = Loop.cancelled;
        })
    reset_sem : b.loop ≡ Loop.cancelled → Step b (record b { sem = reset b.sem; loop = Loop.start })

  pub data Reach (b : Board) : Board → Type 0 where
    here : Reach b b
    next : {c e : Board} → Reach b c → Step c e → Reach b e

  -- the write index that the loop knows of, where it is about to sleep or sleeps
  abbrev pub seen : Loop → Option ℕ
  seen start = none
  seen (polled w) = some w
  seen (waiting w) = some w
  seen (waiting_for_alarm w) = some w
  seen woken = none
  seen cancelled = none
  seen failed = none

  -- whether an alarm may stand
  abbrev pub may_alarm : Loop → Bool
  may_alarm start = false
  may_alarm (polled w) = false
  may_alarm (waiting w) = false
  may_alarm (waiting_for_alarm w) = true
  may_alarm woken = true
  may_alarm cancelled = false
  may_alarm failed = true

  pub record Inv (b : Board) : Type 0 where
    -- a packet that the loop has not seen has given the semaphore, or is about to
    pub unseen :
        (w : ℕ)
        → seen b.loop ≡ some w
        → b.rb_w ≢ w
        → (available b.sem ≡ true) ⊎ (b.interrupt ≡ Interrupt.posting)
    -- where the loop waits for the alarm, it is set or has given the semaphore
    pub alarmed :
        (w : ℕ)
        → b.loop ≡ Loop.waiting_for_alarm w
        → (available b.sem ≡ true) ⊎ (b.timer.timer_cb ≡ some send_timeout_event)
    pub clear : may_alarm b.loop ≡ false → b.timer.timer_cb ≡ none

  Step-Inv : {b c : Board} → Step b c → Inv b → Inv c
  unfolding timer_set_alarm timer_cancel counter_alarm_callback
  Step-Inv {b} (publish e) inv = record {
    unseen = λ w h n. inr refl;
    alarmed = inv.alarmed;
    clear = inv.clear;
  }
  Step-Inv {b} (post e) inv = record {
    unseen = λ w h n. inl (k.available-give b.sem);
    alarmed = λ w h. inl (k.available-give b.sem);
    clear = inv.clear;
  }
  Step-Inv {b} (fire e) inv = record {
    unseen = λ w h n. inl (k.available-give b.sem);
    alarmed = λ w h. inl (k.available-give b.sem);
    clear = λ h. refl;
  }
  Step-Inv {b} (poll e) inv = record {
    unseen = λ w h n. ground arith;
    alarmed = λ w h. cc;
    clear = λ h. ground (arith, inv.clear);
  }
  Step-Inv {b} (tick e) inv = record {
    unseen = λ w h n. cc;
    alarmed = λ w h. cc;
    clear = λ h. ground (arith, inv.clear);
  }
  Step-Inv {b} (sleep {w} e) inv = record {
    unseen = λ v h n. ground (arith, inv.unseen v);
    alarmed = λ v h. cc;
    clear = λ h. ground (arith, inv.clear);
  }
  Step-Inv {b} (set_alarm {w} next_time e ready) inv = record {
    unseen = λ v h n. ground (arith, inv.unseen v);
    alarmed = λ v h. ground (arith, inv.clear);
    clear = λ h. cc;
  }
  Step-Inv {b} (set_alarm_fails {w} next_time e error) inv = record {
    unseen = λ v h n. cc;
    alarmed = λ v h. cc;
    clear = λ h. cc;
  }
  Step-Inv {b} (wake e a) inv = record {
    unseen = λ w h n. cc;
    alarmed = λ w h. cc;
    clear = λ h. ground (arith, inv.clear);
  }
  Step-Inv {b} (wake_with_alarm e a) inv = record {
    unseen = λ w h n. cc;
    alarmed = λ w h. cc;
    clear = λ h. cc;
  }
  Step-Inv {b} (cancel e) inv = record {
    unseen = λ w h n. cc;
    alarmed = λ w h. cc;
    clear = λ h. refl;
  }
  Step-Inv {b} (reset_sem e) inv = record {
    unseen = λ w h n. cc;
    alarmed = λ w h. cc;
    clear = λ h. ground (arith, inv.clear);
  }

  -- at the start of `tick_loop`
  abbrev pub first : (rb_w hi : ℕ) → Sem → Board
  first rb_w hi sem = record {
    rb_w = rb_w;
    sem = sem;
    timer = record { timer_hi = hi; timer_cb = none };
    interrupt = Interrupt.idle;
    loop = Loop.start;
  }

  Reach-Inv : {rb_w hi : ℕ} {sem : Sem} {b : Board} → Reach (first rb_w hi sem) b → Inv b
  Reach-Inv here = record { unseen = λ w h n. cc; alarmed = λ w h. cc; clear = λ h. refl }
  Reach-Inv (next run step) = Step-Inv step (Reach-Inv run)

  -- No wake-up is lost, whenever the interrupts come: where the loop sleeps and a packet came that it has not
  -- seen, the semaphore can be taken, or the interrupt that stored the packet is about to give it. Where it sleeps
  -- with an alarm, the semaphore can be taken or the alarm is still to go off. No alarm is left
  -- over when the loop sets one, so that setting it fails only where the device refuses.
  pub no_lost_wakeup :
      {rb_w hi : ℕ} {sem : Sem} {b : Board}
      → Reach (first rb_w hi sem) b
      → ((w : ℕ)
          → (b.loop ≡ Loop.waiting w) ⊎ (b.loop ≡ Loop.waiting_for_alarm w)
          → b.rb_w ≢ w
          → (available b.sem ≡ true) ⊎ (b.interrupt ≡ Interrupt.posting))
        × ((w : ℕ)
            → b.loop ≡ Loop.waiting_for_alarm w
            → (available b.sem ≡ true) ⊎ (b.timer.timer_cb ≡ some send_timeout_event))
        × ((w next_time : ℕ)
            → b.loop ≡ Loop.polled w
            → (timer_set_alarm counter_set_channel_alarm next_time send_timeout_event b.timer).0
              ≡ counter_set_channel_alarm (next_time % 2 ^ 32))
  unfolding timer_set_alarm
  no_lost_wakeup {b} run =
      let inv = Reach-Inv run in
      (λ w h n. ground (arith, inv.unseen w), inv.alarmed, λ w t h. ground (arith, inv.clear))
