-- ===== src/TimeWheel/Ledgers.antt =====
-- base/timeWheel.h: the life of all timers of a wheel, from its constructor to its destructor.
use grit.Common.{
  Stride, Trace, run_all-Trace, ltb, if◌then◌else◌, Bool-cases, Option-cases, length, get_elem?,
  get_or, length-set, length-replicate, All, All-append, All-get_elem?, Outcome, ℕ, ◌+◌, ◌%◌, ◌<◌,
  ◌≡◌, refl, ◌∙◌, inl, inr, Bool, true, Option, none, some, List, [], ◌∷◌, ◌++◌, arith, ok, fault,
  carries_on, halts, dangling,
}
use native.Mathlib.Nat.{mod-lt}
use grit.TimeWheel.{Timer, TimeWheel, time_wheel, add_timer, erase_timer, del_timer, turn, tick}
use grit.TimeWheel.Deadlines.{Command, after, cancel, pass}
use grit.TimeWheel.Owners.{
  occurrences, delete_slots, delete_expired, taken_out, occurrences-append, occurrences-set,
  occurrences-turn, occurrences-erase_timer, occurrences-snoc, delete-replicate,
}

-- A wheel, the timers that its client was given, the addresses that have been deleted, and those
-- that `delTimer` has taken out of a slot.
pub record Ledger (A : Type 0) : Type 0 where
  pub wheel : TimeWheel A
  pub given : List (Timer A)
  pub deleted : List ℕ
  pub taken : List ℕ

module _ {A : Type 0} where
  unfoldable pub new_ledger : ℕ → ℕ → Ledger A
  new_ledger nslots now = record {
    wheel = time_wheel nslots now;
    given = [];
    deleted = [];
    taken = [];
  }

  -- `delTimer` reads the slot from the timer.
  unfoldable pub is_deleted : Timer A → List ℕ → Bool
  is_deleted timer deleted = ltb 0 (occurrences timer.address deleted)

  unfoldable pub cancel_given : Option (Timer A) → Ledger A → Outcome (Ledger A)
  unfolding is_deleted taken_out
  cancel_given none l = ok l
  cancel_given (some timer) l =
      if is_deleted timer l.deleted
      then fault dangling
      else ok (record l {
        wheel = del_timer l.wheel (some timer);
        taken = l.taken ++ taken_out timer.address (get_or l.wheel.slots timer.slot []);
      })

  unfoldable pub obey : Command A → Ledger A → Outcome (Ledger A)
  unfolding cancel_given delete_expired
  obey (after timeout fun) l =
      let (wheel, timer) = add_timer l.wheel timeout fun in
      ok (record l { wheel = wheel; given = l.given ++ timer ∷ [] })
  obey (cancel i) l = cancel_given (get_elem? l.given i) l
  obey pass l = ok (record l {
    wheel = (tick l.wheel).0;
    deleted = l.deleted ++ delete_expired (get_or l.wheel.slots l.wheel.curslot []);
  })

  -- Every timer that was made, and no other, is at exactly one of three places.
  pub record IsOwned (l : Ledger A) : Type 0 where
    pub some_slots : 0 < l.wheel.nslots
    pub width : length l.wheel.slots ≡ l.wheel.nslots
    pub current : l.wheel.curslot < l.wheel.nslots
    pub homes : All (λ t. t.slot < l.wheel.nslots) l.given
    pub once :
        (a : ℕ)
        → occurrences a l.deleted
            + occurrences a l.taken
            + occurrences a (delete_slots l.wheel.slots)
          ≡ (if ltb a l.wheel.next_address then 1 else 0)

  -- A timer that has been deleted is handed to `delTimer`.
  abbrev pub Stale : Command A → Ledger A → Type 0
  Stale (cancel i) l =
      (t : Timer A) × (get_elem? l.given i ≡ some t) × (is_deleted t l.deleted ≡ true)
  Stale _ l = ⊥

  after-IsOwned :
      (timeout : ℕ) (fun : A) (l : Ledger A)
      → IsOwned l
      → IsOwned (record l {
        wheel = (add_timer l.wheel timeout fun).0;
        given = l.given ++ (add_timer l.wheel timeout fun).1 ∷ [];
      })
  unfolding add_timer
  after-IsOwned timeout fun l o =
      let w = l.wheel in
      let slot = (w.curslot + timeout % w.nslots) % w.nslots in
      let timer = (add_timer w timeout fun).1 in
      let inside : slot < w.nslots = mod-lt (w.curslot + timeout % w.nslots) o.some_slots in
      let old = get_or w.slots slot [] in
      record {
        some_slots = o.some_slots;
        width = length-set w.slots slot _ ∙ o.width;
        current = o.current;
        homes = All-append (λ t. t.slot < w.nslots) l.given (timer ∷ []) o.homes (inside, tt);
        once = λ a. ground (
          arith,
          o.once a,
          occurrences-set a w.slots slot (old ++ timer ∷ []) (rw o.width inside),
          occurrences-snoc a old timer,
        );
      }

  pass-IsOwned :
      (l : Ledger A)
      → IsOwned l
      → IsOwned (record l {
        wheel = (tick l.wheel).0;
        deleted = l.deleted ++ delete_expired (get_or l.wheel.slots l.wheel.curslot []);
      })
  unfolding tick
  pass-IsOwned l o =
      let w = l.wheel in
      let ts = get_or w.slots w.curslot [] in
      record {
        some_slots = o.some_slots;
        width = length-set w.slots w.curslot _ ∙ o.width;
        current = mod-lt (w.curslot + 1) o.some_slots;
        homes = o.homes;
        once = λ a.
            omega (
              arith,
              occurrences-append a l.deleted (delete_expired ts),
              occurrences-set a w.slots w.curslot (turn ts).0 (rw o.width o.current),
              occurrences-turn a ts,
            )
            ∙ o.once a;
      }

  cancel-IsOwned :
      (l : Ledger A) (timer : Timer A)
      → timer.slot < l.wheel.nslots
      → IsOwned l
      → IsOwned (record l {
        wheel = del_timer l.wheel (some timer);
        taken = l.taken ++ taken_out timer.address (get_or l.wheel.slots timer.slot []);
      })
  unfolding del_timer
  cancel-IsOwned l timer inside o =
      let w = l.wheel in
      let ts = get_or w.slots timer.slot [] in
      record {
        some_slots = o.some_slots;
        width = length-set w.slots timer.slot _ ∙ o.width;
        current = o.current;
        homes = o.homes;
        once = λ a.
            omega (
              arith,
              occurrences-append a l.taken (taken_out timer.address ts),
              occurrences-set a w.slots timer.slot (erase_timer timer.address ts)
                  (rw o.width inside),
              occurrences-erase_timer a timer.address ts,
            )
            ∙ o.once a;
      }

  obey-Stride : (c : Command A) (l : Ledger A) → IsOwned l → Stride obey IsOwned Stale c l
  unfolding obey
  obey-Stride (after timeout fun) l o = carries_on _ refl (after-IsOwned timeout fun l o)
  obey-Stride pass l o = carries_on _ refl (pass-IsOwned l o)
  obey-Stride (cancel i) l o = elim (Option-cases (get_elem? l.given i)) [
    | inl null ↦ carries_on l (rw null refl) o
    | inr (timer, e) ↦ elim (Bool-cases (is_deleted timer l.deleted)) [
      | inl stale ↦ halts dangling (rw (e, stale) refl) (timer, e, stale)
      | inr live ↦
          carries_on
            (record l {
              wheel = del_timer l.wheel (some timer);
              taken = l.taken ++ taken_out timer.address (get_or l.wheel.slots timer.slot []);
            })
            (rw (e, live) refl)
            (cancel-IsOwned l timer
              (All-get_elem? (λ t. t.slot < l.wheel.nslots) l.given i o.homes e) o)
    ]
  ]

  new_ledger-IsOwned : (n now : ℕ) → 0 < n → IsOwned (new_ledger n now)
  unfolding new_ledger time_wheel
  new_ledger-IsOwned n now h = record {
    some_slots = h;
    width = length-replicate n [];
    current = h;
    homes = tt;
    once = λ a. rw (delete-replicate A a n) (ground arith);
  }

  -- A wheel with some slots, and any sequence of additions, cancellations and ticks, or else all up to
  -- the first that hands a timer to `delTimer` which has been deleted, which reads freed memory. Each
  -- timer that was made, and no other, is then exactly once among those that the ticks have deleted,
  -- those that `delTimer` took out, and those that the destructor would delete. So no timer is
  -- deleted twice, and those that `delTimer` took out are deleted by nobody.
  pub obey-Trace :
      (n now : ℕ) (cs : List (Command A)) → 0 < n → Trace obey IsOwned Stale cs (new_ledger n now)
  obey-Trace n now cs h =
      run_all-Trace obey IsOwned Stale obey-Stride cs (new_ledger n now)
        (new_ledger-IsOwned n now h)
