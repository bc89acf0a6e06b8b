-- ===== src/Locks/Pairing.antt =====
-- GLock followed by GUnlock.
use evesso.Prelude.{
  ◌≡◌, refl, ap, ◌∙◌, ◌+◌, ◌-◌, ℕ, Bool, true, false, Option, none, some, ℤ, int_eq, int_eq_iff,
  if◌then◌else◌, arith, Option-cases, inl, inr,
}
use evesso.Exec.{Error, fault, Done, Result, Result-cases, ok, err}
use evesso.Locks.{
  Advisory, Key, key_number, unlock_key_number, done, panic, on_session, run_with, g_lock, g_unlock,
}

undo : (b : Bool) (p q r : ℕ) → q ≡ (if b then p + 1 else p) → r ≡ (if b then q - 1 else q) → r ≡ p
undo true p q r h k = omega arith
undo false p q r h k = k ∙ h

-- The two type switches have the same cases.
unlock_key_number_lem : (key : Key) → unlock_key_number key ≡ key_number key
unfolding key_number unlock_key_number
unlock_key_number_lem (Key.number n) = refl
unlock_key_number_lem (Key.text t) = refl
unlock_key_number_lem (Key.bytes t) = refl
unlock_key_number_lem Key.unknown = refl

module _ (a : Advisory) where
  open a use {
    State, Session, holds, acquire, acquire-holds, ping, ping-holds, lock, lock-holds, unlock,
    unlock-holds,
  }

  -- What a call that returned has done with a session that it had.
  abbrev Counts : State → State → Session → (ℤ → ℕ → ℕ) → Type 0
  Counts s t c f = (j : ℤ) → holds t c j ≡ f j (holds s c j)

  on_session-done :
      (f : Session → ℤ → State → Result Done × State) (change : ℕ → ℕ)
      → ((c : Session) (k : ℤ) (s : State)
          → (f c k s).0 ≡ ok tt
          → (j : ℤ)
          → holds (f c k s).1 c j ≡ (if int_eq j k then change (holds s c j) else holds s c j))
      → (c : Session) (number : Option ℤ) (s : State) → (on_session a f c number s).0 ≡ done
      → (n : ℤ) × (number ≡ some n)
        × ((on_session a f c number s).1.0 ≡ some c)
        × Counts s (on_session a f c number s).1.1 c (λ j m. if int_eq j n then change m else m)
  on_session-done f change law c number s h = elim (Result-cases (ping c s).0) [
    | inr (e, bad) ↦ cc (rw (bad, on_session) at h)
    | inl (d, alive) ↦ elim (Option-cases number) [
      | inl none_known ↦ cc (rw (alive, on_session, none_known) at h)
      | inr (n, known) ↦ elim (Result-cases (f c n (ping c s).1).0) [
        | inr (e, bad) ↦ cc (rw (alive, on_session, known, run_with, bad) at h)
        | inl (d', ran) ↦ (
          n,
          known,
          rw (alive, on_session, known) refl,
          λ j.
              rw (alive, on_session, known)
                (law c n (ping c s).1 ran j
                  ∙ ap (λ m. if int_eq j n then change m else m) (ping-holds c s c j)),
        )
      ]
    ]
  ]

  -- A GLock that returned with a session has the lock of its key there once more.
  g_lock-done :
      (key : Key) (x : Option Session) (s : State) (c : Session)
      → (g_lock a key (x, s)).0 ≡ done
      → (g_lock a key (x, s)).1.0 ≡ some c
      → (n : ℤ) × (key_number key ≡ some n)
        × Counts s (g_lock a key (x, s)).1.1 c (λ j m. if int_eq j n then m + 1 else m)
  unfolding g_lock
  g_lock-done key (some d) s c h at =
      let (n, known, same, counts) =
        on_session-done lock (λ m. m + 1) lock-holds d (key_number key) s h in
      let eq : d ≡ c = cc (at, same) in (n, known, rw (← eq) counts)
  g_lock-done key none s c h at = elim (Result-cases (acquire s).0) [
    | inr (e, bad) ↦ cc (rw (bad, g_lock) at at)
    | inl (d, good) ↦
        let (n, known, same, counts) =
          on_session-done lock (λ m. m + 1) lock-holds d (key_number key) (acquire s).1
            (rw (good, g_lock) at h) in
        let eq : d ≡ c = cc (rw (good, g_lock) at at, same) in
        (
          n,
          known,
          rw (good, g_lock, ← eq)
              (λ j. counts j ∙ ap (λ m. if int_eq j n then m + 1 else m) (acquire-holds s d j)),
        )
  ]

  -- If GLock has returned with a session, and GUnlock of the same key returns after it, then between the two
  -- the session holds the number of the key once more than before, and after them it holds every lock as
  -- often as before the first.
  pub g_lock-g_unlock :
      (key : Key) (x : Option Session) (s : State) (c : Session)
      → (g_lock a key (x, s)).0 ≡ done
      → (g_lock a key (x, s)).1.0 ≡ some c
      → (g_unlock a key (g_lock a key (x, s)).1).0 ≡ done
      → (n : ℤ) × (key_number key ≡ some n)
        × (holds (g_lock a key (x, s)).1.1 c n ≡ holds s c n + 1)
        × ((j : ℤ) → holds (g_unlock a key (g_lock a key (x, s)).1).1.1 c j ≡ holds s c j)
  unfolding g_unlock
  g_lock-g_unlock key x s c locked at unlocked =
      let (n, known, counts) = g_lock-done key x s c locked at in
      let mid = (g_lock a key (x, s)).1.1 in
      let pair : (g_lock a key (x, s)).1 ≡ (some c, mid) = ap (λ o. (o, mid)) at in
      let (m, known', _, counts') =
        on_session-done unlock (λ m. m - 1) unlock-holds c (unlock_key_number key) mid
          (rw pair at unlocked) in
      let same : m ≡ n = cc (known, known', unlock_key_number_lem key) in
      let self = (int_eq_iff n n).1 refl in
      (
        n,
        known,
        counts n ∙ rw self refl,
        λ j. rw pair (undo (int_eq j n) _ _ _ (counts j) (rw same at counts' j)),
      )

  -- If no connection can be had, GLock returns as if it had the lock, and the GUnlock that belongs to it is a
  -- nil dereference.
  pub g_lock_without_connection :
      (key : Key) (s : State) (e : Error)
      → (acquire s).0 ≡ err e
      → let (outcome, (x, s')) = g_lock a key (none, s) in
        (outcome ≡ done)
        × (x ≡ none)
        × (s' ≡ (acquire s).1)
        × ((g_unlock a key (x, s')).0 ≡ panic fault)
  unfolding g_lock g_unlock
  g_lock_without_connection key s e bad = rw (bad, g_lock) (refl, refl, refl, refl)
