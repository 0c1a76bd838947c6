-- ===== src/Locks/Invariant.antt =====
-- What holds of a store with a mutex, however its methods interleave.
use g_rpc_playground.Prelude.{
  ℕ, ◌≡◌, refl, sym, ◌∙◌, Bool, true, false, Option, none, some, List, [], ◌∷◌, ◌++◌, arith,
}
use g_rpc_playground.Locks.{
  update, Methods, Pc, outside, entered, pending, reading, viewed, System, Step, locks, loads,
  stores, unlocks, rlocks, looks, runlocks, Reach, start, later, effect, replay, run_writes,
}

module _ {Op A B : Type 0} where
  abbrev pub writing : Pc Op A B → Bool
  writing (entered op) = true
  writing (pending writes) = true
  writing outside = false
  writing reading = false
  writing (viewed a) = false

  abbrev pub viewing : Pc Op A B → Bool
  viewing reading = true
  viewing (viewed a) = true
  viewing outside = false
  viewing (entered op) = false
  viewing (pending writes) = false

module _ {Op A B : Type 0} (methods : Methods Op A B) where
  -- The map once a thread that is in a method that writes has come to its end.
  abbrev pub finish : Pc Op A B → A → A
  finish (entered op) a = effect methods op a
  finish (pending writes) a = run_writes writes a
  finish outside a = a
  finish reading a = a
  finish (viewed seen) a = a

  abbrev settled_by : System Op A B → Option ℕ → A
  settled_by s none = s.shared
  settled_by s (some i) = finish (s.pc i) s.shared

  -- The map once the thread that holds the lock for writing, if any, has come to its end.
  abbrev pub settled : System Op A B → A
  settled s = settled_by s s.writer

  -- What a thread that reads has read is what is there.
  abbrev pub IsFresh : A → Pc Op A B → Type 0
  IsFresh shared (viewed a) = shared ≡ a
  IsFresh shared outside = Unit
  IsFresh shared (entered op) = Unit
  IsFresh shared (pending writes) = Unit
  IsFresh shared reading = Unit

  pub record Inv (a : A) (s : System Op A B) : Type 0 where
    pub writes : (i : ℕ) → writing (s.pc i) ≡ true → s.writer ≡ some i
    pub held : (i : ℕ) → s.writer ≡ some i → writing (s.pc i) ≡ true
    pub reads : (i : ℕ) → viewing (s.pc i) ≡ true → s.readers i ≡ true
    pub apart : (i : ℕ) → s.readers i ≡ true → s.writer ≡ none
    pub fresh : (i : ℕ) → IsFresh s.shared (s.pc i)
    pub replayed : settled s ≡ replay methods s.log a

  settled_free : (s : System Op A B) → s.writer ≡ none → settled s ≡ s.shared
  settled_free s e = rw e

  settled_at :
      (s : System Op A B) (i : ℕ) (p : Pc Op A B)
      → s.writer ≡ some i
      → s.pc i ≡ p
      → settled s ≡ finish p s.shared
  settled_at s i p e at = rw e (rw at)

  same_thread : (f : ℕ → Pc Op A B) (i : ℕ) (p : Pc Op A B) → update f i p i ≡ p
  same_thread f i p = ground arith

  -- The thread with the lock takes a step that leaves the end that it comes to.
  settles :
      {a : A} (s t : System Op A B) (i : ℕ) (p q : Pc Op A B)
      → Inv a s
      → s.pc i ≡ p
      → writing p ≡ true
      → t.writer ≡ s.writer
      → t.pc ≡ update s.pc i q
      → t.log ≡ s.log
      → finish q t.shared ≡ finish p s.shared
      → settled t ≡ replay methods t.log a
  settles {a} s t i p q v at inside writer moved log same =
      let held = v.writes i (rw at inside) in
      rw log (
        settled_at t i q (writer ∙ held) (rw moved (same_thread s.pc i q))
        ∙ same
        ∙ sym (settled_at s i p held at)
        ∙ v.replayed)

  -- A thread without the lock takes a step while no thread has it.
  idles :
      {a : A} (s t : System Op A B)
      → Inv a s
      → s.writer ≡ none
      → t.writer ≡ s.writer
      → t.shared ≡ s.shared
      → t.log ≡ s.log
      → settled t ≡ replay methods t.log a
  idles s t v free writer shared log =
      rw log (settled_free t (writer ∙ free) ∙ shared ∙ sym (settled_free s free) ∙ v.replayed)

  replay-append :
      (ops : List Op) (op : Op) (a : A)
      → replay methods (ops ++ op ∷ []) a ≡ effect methods op (replay methods ops a)
  unfolding replay
  replay-append [] op a = refl
  replay-append (o ∷ ops) op a = replay-append ops op (effect methods o a)

  -- A call starts while no thread has the lock.
  starts :
      {a : A} (s : System Op A B) (op : Op)
      → Inv a s
      → s.writer ≡ none
      → effect methods op s.shared ≡ replay methods (s.log ++ op ∷ []) a
  starts {a} s op v free =
      rw (replay-append s.log op a) (rw (← v.replayed) (rw (settled_free s free)))

  Step-Inv : {a : A} {s t : System Op A B} → Step methods s t → Inv a s → Inv a t
  unfolding run_writes
  Step-Inv {a} {s} {t} (locks i op out free none_reads) v = record {
    writes = λ j h. ground (arith, v.writes j);
    held = λ j h. ground (arith);
    reads = λ j h. ground (arith, v.reads j);
    apart = λ j h. ground (arith, none_reads j);
    fresh = λ j. ground (arith, v.fresh j);
    replayed =
        settled_at t i (entered op) refl (same_thread s.pc i (entered op)) ∙ starts s op v free;
  }
  Step-Inv {a} {s} {t} (loads i op at) v = record {
    writes = λ j h. ground (arith, v.writes j, v.writes i);
    held = λ j h. ground (arith, v.held j);
    reads = λ j h. ground (arith, v.reads j);
    apart = v.apart;
    fresh = λ j. ground (arith, v.fresh j);
    replayed = settles s t i (entered op) _ v at refl refl refl refl refl;
  }
  Step-Inv {a} {s} {t} (stores i write writes at) v = record {
    writes = λ j h. ground (arith, v.writes j, v.writes i);
    held = λ j h. ground (arith, v.held j);
    reads = λ j h. ground (arith, v.reads j);
    apart = v.apart;
    fresh = λ j. ground (arith, v.fresh j, v.writes i, v.writes j, v.reads j, v.apart j);
    replayed =
        settles s t i (pending (write ∷ writes)) (pending writes) v at refl refl refl refl refl;
  }
  Step-Inv {a} {s} {t} (unlocks i at) v = record {
    writes = λ j h. ground (arith, v.writes j, v.writes i);
    held = λ j h. ground (arith);
    reads = λ j h. ground (arith, v.reads j);
    apart = λ j h. refl;
    fresh = λ j. ground (arith, v.fresh j);
    replayed = sym (settled_at s i (pending []) (v.writes i (rw at refl)) at) ∙ v.replayed;
  }
  Step-Inv {a} {s} {t} (rlocks i out free) v = record {
    writes = λ j h. ground (arith, v.writes j);
    held = λ j h. ground (arith);
    reads = λ j h. ground (arith, v.reads j);
    apart = λ j h. free;
    fresh = λ j. ground (arith, v.fresh j);
    replayed = idles s t v free refl refl refl;
  }
  Step-Inv {a} {s} {t} (looks i at) v = record {
    writes = λ j h. ground (arith, v.writes j);
    held = λ j h. ground (arith, v.held j);
    reads = λ j h. ground (arith, v.reads j, v.reads i);
    apart = v.apart;
    fresh = λ j. ground (arith, v.fresh j);
    replayed = idles s t v (v.apart i (v.reads i (rw at refl))) refl refl refl;
  }
  Step-Inv {s = s} {t = t} (runlocks i a at) v = record {
    writes = λ j h. ground (arith, v.writes j);
    held = λ j h. ground (arith, v.held j);
    reads = λ j h. ground (arith, v.reads j);
    apart = λ j h. ground (arith, v.apart j);
    fresh = λ j. ground (arith, v.fresh j);
    replayed = idles s t v (v.apart i (v.reads i (rw at refl))) refl refl refl;
  }

  pub Reach-Inv : {a : A} {s : System Op A B} → Reach methods a s → Inv a s
  unfolding replay
  Reach-Inv start = record {
    writes = λ i h. cc;
    held = λ i h. cc;
    reads = λ i h. cc;
    apart = λ i h. cc;
    fresh = λ i. tt;
    replayed = refl;
  }
  Reach-Inv (later r step) = Step-Inv step (Reach-Inv r)

  -- A method that reads sees one state of the map from its first access to its last: the one that is
  -- there when it ends.
  pub one_view :
      {a : A} {s : System Op A B}
      → Reach methods a s
      → (i : ℕ) (seen : A) → s.pc i ≡ viewed seen
      → s.shared ≡ seen
  one_view r i seen at = ground (arith, (Reach-Inv r).fresh i)
