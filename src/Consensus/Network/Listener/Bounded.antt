-- ===== src/Consensus/Network/Listener/Bounded.antt =====
-- What holds of the listener of crates/rc-consensus/src/lib.rs whatever order its steps come in.
use routinechain.Base.{
  ℕ, ◌+◌, ◌≤◌, ◌≡◌, refl, ap, subst, ◌∙◌, some, List, [], ◌∷◌, ◌++◌, length, length-append, All,
  All-append, arith,
}
use routinechain.Types.Bytes.{Id32}
use routinechain.External.{Bytes}
use routinechain.Store.Disk.{Codec}
use routinechain.Consensus.{ConsensusMessage}
use routinechain.Consensus.Network.{ReadExact, receive}
use routinechain.Consensus.Network.Listener.{
  max_connections, Acceptor, accepting, admitted, counted, stopped, Task, reading, sending,
  Listener, init, without, Step, stop, reject, admit, count, spawn, time_out, fail, read, send,
  take, Steps, start, later,
}

-- connections that are counted and have no task yet
abbrev pub uncovered : Acceptor → ℕ
uncovered accepting = 0
uncovered (admitted _) = 0
uncovered (counted _) = 1
uncovered stopped = 0

-- places that the accepting loop needs or holds beside those of the tasks
abbrev pub reserved : Acceptor → ℕ
reserved accepting = 0
reserved (admitted _) = 1
reserved (counted _) = 1
reserved stopped = 0

module _ (read_exact : ReadExact) (codec : Codec ConsensusMessage) where
  -- Some connection delivered the message.
  abbrev pub IsReceived : Id32 × ConsensusMessage → Type 0
  IsReceived m = (stream : Bytes) × (receive read_exact codec stream ≡ some m)

  -- A task that sends has its message from its connection.
  abbrev pub IsHonest : Task → Type 0
  IsHonest (reading _) = Unit
  IsHonest (sending from msg) = IsReceived (from, msg)

  pub record Sound (capacity : ℕ) (l : Listener) : Type 0 where
    pub every_task : l.active_connections ≡ length l.tasks + uncovered l.acceptor
    pub limit : length l.tasks + reserved l.acceptor ≤ max_connections
    pub fits : length l.channel ≤ capacity
    pub from_tasks : All IsHonest l.tasks
    pub from_connections : All IsReceived l.channel

All-middle {ℓ κ} :
    {A : Type ℓ} (P : A → Type κ) (xs ys : List A) (a : A)
    → All P (xs ++ a ∷ ys)
    → P a × All P (xs ++ ys)
All-middle P [] ys a h = h
All-middle P (x ∷ xs) ys a h = let (here, rest) = All-middle P xs ys a h.1 in (here, (h.0, rest))

All-put {ℓ κ} :
    {A : Type ℓ} (P : A → Type κ) (xs ys : List A) (a : A)
    → P a
    → All P (xs ++ ys)
    → All P (xs ++ a ∷ ys)
All-put P [] ys a here h = (here, h)
All-put P (x ∷ xs) ys a here h = (h.0, All-put P xs ys a here h.1)

length-middle {ℓ} :
    {A : Type ℓ} (xs ys : List A) (a : A) → length (xs ++ a ∷ ys) ≡ length (xs ++ ys) + 1
length-middle [] ys a = omega arith
length-middle (x ∷ xs) ys a = omega (arith, length-middle xs ys a)

uncovered-le-reserved : (a : Acceptor) → uncovered a ≤ reserved a
uncovered-le-reserved accepting = omega arith
uncovered-le-reserved (admitted _) = omega arith
uncovered-le-reserved (counted _) = omega arith
uncovered-le-reserved stopped = omega arith

module _ (read_exact : ReadExact) (codec : Codec ConsensusMessage) (capacity : ℕ) where
  -- The end of a task.
  without-Sound :
      (l : Listener) (before after : List Task) (t : Task)
      → l.tasks ≡ before ++ t ∷ after
      → Sound read_exact codec capacity l
      → Sound read_exact codec capacity (without (before ++ after) l)
  without-Sound l before after t split s =
      let size : length l.tasks ≡ length (before ++ after) + 1 =
        ap length split ∙ length-middle before after t in
      record {
        every_task = omega (arith, size, s.every_task, s.limit, uncovered-le-reserved l.acceptor);
        limit = omega (arith, size, s.limit);
        fits = s.fits;
        from_tasks =
            (All-middle (IsHonest read_exact codec) before after t
              (subst (All (IsHonest read_exact codec)) split s.from_tasks)).1;
        from_connections = s.from_connections;
      }

  Step-Sound :
      (l m : Listener)
      → Step read_exact codec capacity l m
      → Sound read_exact codec capacity l
      → Sound read_exact codec capacity m
  Step-Sound l m (stop idle) s = record {
    every_task = ground (arith, s.every_task, idle);
    limit = ground (arith, s.limit, idle);
    fits = s.fits;
    from_tasks = s.from_tasks;
    from_connections = s.from_connections;
  }
  Step-Sound l m (reject _ _) s = s
  Step-Sound l m (admit stream idle room) s = record {
    every_task = ground (arith, s.every_task, idle);
    limit = ground (arith, s.every_task, idle, room);
    fits = s.fits;
    from_tasks = s.from_tasks;
    from_connections = s.from_connections;
  }
  Step-Sound l m (count stream at) s = record {
    every_task = ground (arith, s.every_task, s.limit, at);
    limit = ground (arith, s.limit, at);
    fits = s.fits;
    from_tasks = s.from_tasks;
    from_connections = s.from_connections;
  }
  Step-Sound l m (spawn stream at) s =
      let size : length (l.tasks ++ reading stream ∷ []) ≡ length l.tasks + 1 =
        length-append l.tasks (reading stream ∷ []) in
      record {
        every_task = ground (arith, s.every_task, size, at);
        limit = ground (arith, s.limit, size, at);
        fits = s.fits;
        from_tasks =
            All-append (IsHonest read_exact codec) l.tasks (reading stream ∷ []) s.from_tasks
              (tt, tt);
        from_connections = s.from_connections;
      }
  Step-Sound l m (time_out before after stream split) s =
      without-Sound l before after (reading stream) split s
  Step-Sound l m (fail before after stream split _) s =
      without-Sound l before after (reading stream) split s
  Step-Sound l m (read before after stream from msg split got) s =
      let old = length-middle before after (reading stream) in
      let size : length (before ++ sending from msg ∷ after) ≡ length l.tasks =
        omega (arith, ap length split, old, length-middle before after (sending from msg)) in
      record {
        every_task = omega (arith, s.every_task, size);
        limit = omega (arith, s.limit, size);
        fits = s.fits;
        from_tasks =
            All-put (IsHonest read_exact codec) before after (sending from msg) (stream, got)
              (All-middle (IsHonest read_exact codec) before after (reading stream)
                (subst (All (IsHonest read_exact codec)) split s.from_tasks)).1;
        from_connections = s.from_connections;
      }
  Step-Sound l m (send before after from msg split room) s =
      let fewer = without-Sound l before after (sending from msg) split s in
      record {
        every_task = fewer.every_task;
        limit = fewer.limit;
        fits = omega (arith, room, length-append l.channel ((from, msg) ∷ []));
        from_tasks = fewer.from_tasks;
        from_connections =
            All-append (IsReceived read_exact codec) l.channel ((from, msg) ∷ []) s.from_connections
              (
                (All-middle (IsHonest read_exact codec) before after (sending from msg)
                    (subst (All (IsHonest read_exact codec)) split s.from_tasks)).0,
                tt,
              );
      }
  Step-Sound l m (take first rest split) s = record {
    every_task = s.every_task;
    limit = s.limit;
    fits = omega (arith, ap length split, s.fits);
    from_tasks = s.from_tasks;
    from_connections = (subst (All (IsReceived read_exact codec)) split s.from_connections).1;
  }

  pub Steps-Sound :
      (l : Listener) → Steps read_exact codec capacity init l → Sound read_exact codec capacity l
  Steps-Sound l start = record {
    every_task = refl;
    limit = omega arith;
    fits = omega arith;
    from_tasks = tt;
    from_connections = tt;
  }
  Steps-Sound l (later {m} before step) = Step-Sound m l step (Steps-Sound m before)

-- Whatever order the steps come in, the listener counts a connection for each task, and one that is
-- about to get its task; never more than the limit are open; the channel is never over its capacity;
-- and every message in it was delivered by some connection, under the sender's id that stands in it.
pub connections_bounded :
    (read_exact : ReadExact) (codec : Codec ConsensusMessage) (capacity : ℕ) (l : Listener)
    → Steps read_exact codec capacity init l
    → (l.active_connections ≡ length l.tasks + uncovered l.acceptor)
      × (l.active_connections ≤ max_connections)
      × (length l.channel ≤ capacity)
      × All (IsReceived read_exact codec) l.channel
connections_bounded read_exact codec capacity l run =
    let s = Steps-Sound read_exact codec capacity l run in
    (
      s.every_task,
      omega (arith, s.every_task, s.limit, uncovered-le-reserved l.acceptor),
      s.fits,
      s.from_connections,
    )
