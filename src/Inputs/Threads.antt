-- ===== src/Inputs/Threads.antt =====
-- The input ring buffer between two threads, the input handler and the main loop, whose reads and
-- writes interleave: `ssm_stdin_handler` of platform/posix/src/posix-io.c and `main` of
-- platform/posix/src/posix-main.c. There is one handler at a time.
use ssm_runtime.Base.{
  ℕ, ◌+◌, ◌≤◌, ◌<◌, ◌≡◌, ◌≢◌, refl, sym, ◌∙◌, true, arith, ltb, if◌then◌else◌, update,
}
use ssm_runtime.Posix.{input_idx, input_read_ready, input_write_ready}
use ssm_runtime.Inputs.{Input, Ring, input_get, put_input, scale_input}

-- Where the handler stands, with the write index that it has loaded.
pub data Handler : Type 0 where
  idle : Handler
  ready : (w : ℕ) → Handler
  filled : (w : ℕ) → Handler

-- Where the main loop stands, with the indices that it has loaded.
pub data Loop : Type 0 where
  away : Loop
  polling : (r w : ℕ) → Loop

-- The buffer with its threads. `accepted` remembers the packets in the order of their writes.
pub record Threads (T : Type 0) : Type 0 where
  pub ring : Ring T
  pub handler : Handler
  pub loop : Loop
  pub accepted : ℕ → Input T

module _ {T : Type 0} (convert : T → T) where
  -- One access of one thread. What the main loop does between `poll` and `release` is to scale and to
  -- read packets; it gives back any number of them.
  pub data Step (t : Threads T) : Threads T → Type 0 where
    load :
        t.handler ≡ Handler.idle
        → input_write_ready t.ring.rb_r t.ring.rb_w ≡ true
        → Step t (record t { handler = Handler.ready t.ring.rb_w })
    write :
        {w : ℕ} (packet : Input T)
        → t.handler ≡ Handler.ready w
        → Step t (record t {
          ring = put_input w packet t.ring;
          handler = Handler.filled w;
          accepted = update t.accepted w packet;
        })
    publish :
        {w : ℕ}
        → t.handler ≡ Handler.filled w
        → Step t (record t { ring = record t.ring { rb_w = w + 1 }; handler = Handler.idle })
    poll : t.loop ≡ Loop.away → Step t (record t { loop = Loop.polling t.ring.rb_r t.ring.rb_w })
    scale :
        {r w : ℕ}
        → t.loop ≡ Loop.polling r w
        → t.ring.scaled < w
        → Step t (record t { ring = scale_input convert t.ring })
    release :
        {r w : ℕ} (r' : ℕ)
        → t.loop ≡ Loop.polling r w
        → w ≤ t.ring.scaled
        → r ≤ r'
        → r' ≤ w
        → Step t (record t { ring = record t.ring { rb_r = r' }; loop = Loop.away })

  pub data Reach (s : Threads T) : Threads T → Type 0 where
    here : Reach s s
    next : {t t' : Threads T} → Reach s t → Step t t' → Reach s t'

  -- a packet as it stands in the buffer, once the loop has scaled the first `n`
  abbrev pub stored : (n i : ℕ) → Input T → Input T
  stored n i packet = if ltb i n then record packet { time = convert packet.time } else packet

  -- At most 31 packets wait, and each stands in its slot. The handler writes to the slot after them.
  pub record Inv (t : Threads T) : Type 0 where
    pub behind : t.ring.rb_r ≤ t.ring.scaled
    pub ahead : t.ring.scaled ≤ t.ring.rb_w
    pub room : t.ring.rb_w ≤ t.ring.rb_r + 31
    pub slots :
        (i : ℕ)
        → t.ring.rb_r ≤ i
        → i < t.ring.rb_w
        → input_get i t.ring ≡ stored t.ring.scaled i (t.accepted i)
    pub readied : (w : ℕ) → t.handler ≡ Handler.ready w → (w ≡ t.ring.rb_w) × (w < t.ring.rb_r + 31)
    pub written :
        (w : ℕ)
        → t.handler ≡ Handler.filled w
        → (w ≡ t.ring.rb_w) × (w < t.ring.rb_r + 31) × (input_get w t.ring ≡ t.accepted w)
    pub polled :
        (r w : ℕ)
        → t.loop ≡ Loop.polling r w
        → (r ≡ t.ring.rb_r) × (w ≤ t.ring.rb_w) × (r ≤ w) × (t.ring.scaled ≤ w)

  abbrev pub empty : T → Threads T
  empty time = record {
    ring = record {
      rb = λ i. record { sv = 0; payload = 0; time = time };
      rb_r = 0;
      rb_w = 0;
      scaled = 0;
    };
    handler = Handler.idle;
    loop = Loop.away;
    accepted = λ i. record { sv = 0; payload = 0; time = time };
  }

  empty-Inv : (time : T) → Inv (empty time)
  empty-Inv time = record {
    behind = omega arith;
    ahead = omega arith;
    room = omega arith;
    slots = λ i a b. absurd (omega arith);
    readied = λ w e. cc;
    written = λ w e. cc;
    polled = λ r w e. cc;
  }

  Step-Inv : {t t' : Threads T} → Step t t' → Inv t → Inv t'
  unfolding input_read_ready input_write_ready scale_input
  Step-Inv {t} (load e room) inv = record {
    behind = inv.behind;
    ahead = inv.ahead;
    room = inv.room;
    slots = inv.slots;
    readied = λ w h. ground (arith, inv.behind, inv.ahead, inv.room);
    written = λ w h. cc;
    polled = inv.polled;
  }
  Step-Inv {t} (write {w} packet e) inv = record {
    behind = inv.behind;
    ahead = inv.ahead;
    room = inv.room;
    slots = λ i a b. ground (arith, inv.slots i a b, inv.readied w e);
    readied = λ v h. cc;
    written = λ v h. ground (arith, inv.readied w e);
    polled = inv.polled;
  }
  Step-Inv {t} (publish {w} e) inv = record {
    behind = inv.behind;
    ahead = ground (arith, inv.ahead, inv.written w e);
    room = ground (arith, inv.written w e);
    slots = λ i a b. ground (arith, inv.slots i a, inv.written w e, inv.ahead);
    readied = λ v h. cc;
    written = λ v h. cc;
    polled = λ r v h. ground (arith, inv.polled r v h, inv.written w e);
  }
  Step-Inv {t} (poll e) inv = record {
    behind = inv.behind;
    ahead = inv.ahead;
    room = inv.room;
    slots = inv.slots;
    readied = inv.readied;
    written = inv.written;
    polled = λ r w h. ground (arith, inv.behind, inv.ahead);
  }
  Step-Inv {t} (scale {r} {w} e more) inv = record {
    behind = ground (arith, inv.behind);
    ahead = ground (arith, inv.polled r w e);
    room = inv.room;
    slots = λ i a b. ground (arith, inv.slots i a b, inv.room, inv.behind, inv.polled r w e);
    readied = inv.readied;
    written = λ v h. ground (arith, inv.written v h, inv.polled r w e, inv.behind);
    polled = λ q v h. ground (arith, inv.polled q v h);
  }
  Step-Inv {t} (release {r} {w} r' e done a b) inv = record {
    behind = ground (arith, inv.polled r w e);
    ahead = inv.ahead;
    room = ground (arith, inv.polled r w e, inv.room);
    slots = λ i c d. ground (arith, inv.slots i, inv.polled r w e);
    readied = λ v h. ground (arith, inv.readied v h, inv.polled r w e);
    written = λ v h. ground (arith, inv.written v h, inv.polled r w e);
    polled = λ q v h. cc;
  }

  Reach-Inv : {time : T} {t : Threads T} → Reach (empty time) t → Inv t
  Reach-Inv {time} here = empty-Inv time
  Reach-Inv (next run step) = Step-Inv step (Reach-Inv run)

  -- What the main loop reads, once it has scaled the packets that it saw at its poll, are the packets
  -- that the handler wrote, each at its place in the order of the writes, with its time converted once. The
  -- handler does not write to the slot of any of them, wherever it stands.
  pub received :
      {time : T} {t : Threads T} {r w : ℕ}
      → Reach (empty time) t
      → t.loop ≡ Loop.polling r w
      → w ≤ t.ring.scaled
      → (i : ℕ) → r ≤ i
      → i < w
      → (input_get i t.ring ≡ record (t.accepted i) { time = convert (t.accepted i).time })
        × ((v : ℕ) → t.handler ≡ Handler.ready v → input_idx v ≢ input_idx i)
  received {r} {w} run e done i a b =
      let inv = Reach-Inv run in
      (
        ground (arith, inv.slots i, inv.polled r w e),
        λ v h same. ground (arith, inv.readied v h, inv.polled r w e),
      )

  Reach-append : {s t u : Threads T} → Reach s t → Reach t u → Reach s u
  Reach-append a here = a
  Reach-append a (next run step) = next (Reach-append a run) step

  -- a packet that is published keeps its place in the order
  Step-kept :
      {t t' : Threads T}
      → Step t t'
      → Inv t
      → (i : ℕ) → i < t.ring.rb_w
      → (i < t'.ring.rb_w) × (t'.accepted i ≡ t.accepted i)
  unfolding scale_input
  Step-kept (load e room) inv i a = (a, refl)
  Step-kept (write {w} packet e) inv i a = ground (arith, inv.readied w e)
  Step-kept (publish {w} e) inv i a = ground (arith, inv.written w e)
  Step-kept (poll e) inv i a = (a, refl)
  Step-kept (scale e more) inv i a = (a, refl)
  Step-kept (release r' e done b c) inv i a = (a, refl)

  -- A published packet stays in its slot until the main loop gives it back: none is lost, and its time
  -- is converted when the loop scales it, and never again.
  pub published_stays :
      {time : T} {s t : Threads T}
      → Reach (empty time) s
      → Reach s t
      → (i : ℕ) → i < s.ring.rb_w
      → (i < t.ring.rb_w)
        × (t.accepted i ≡ s.accepted i)
        × (t.ring.rb_r ≤ i → input_get i t.ring ≡ stored t.ring.scaled i (s.accepted i))
  published_stays start here i a = (a, refl, λ b. (Reach-Inv start).slots i b a)
  published_stays {s} start (next {t} run step) i a =
      let (b, same, kept) = published_stays start run i a in
      let inv = Reach-Inv (Reach-append start run) in
      let (c, again) = Step-kept step inv i b in
      (c, again ∙ same, λ d. rw (sym (again ∙ same)) ((Step-Inv step inv).slots i d c))
