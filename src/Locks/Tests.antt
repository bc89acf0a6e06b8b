-- ===== src/Locks/Tests.antt =====
-- A server of advisory locks with one session, and the pairing on it.
use evesso.Prelude.{◌≡◌, refl, ◌+◌, ◌-◌, ℕ, Bool, true, none, some, ℤ, pos, int_eq, if◌then◌else◌}
use evesso.Exec.{unavailable, ok, err}
use evesso.Locks.{Advisory, Key, key_number, g_lock, g_unlock}
use evesso.Locks.Checksum.{utf8, checksum_ieee}
use evesso.Locks.Pairing.{g_lock-g_unlock}

record Held : Type 0 where
  count : ℤ → ℕ
  up : Bool

abbrev change : (ℕ → ℕ) → ℤ → Held → Held
change f k s = record s { count = λ j. if int_eq j k then f (s.count j) else s.count j }

abbrev one_session : Advisory
one_session = record {
  State = Held;
  Session = Unit;
  holds = λ s c j. s.count j;
  acquire = λ s. (if s.up then ok tt else err unavailable, s);
  acquire-holds = λ s c j. refl;
  ping = λ c s. (ok tt, s);
  ping-holds = λ d s c j. refl;
  lock = λ c k s. (ok tt, change (λ m. m + 1) k s);
  lock-holds = λ c k s h j. refl;
  unlock = λ c k s. (ok tt, change (λ m. m - 1) k s);
  unlock-holds = λ c k s h j. refl;
}

abbrev free : Held
free = record { count = λ j. 0; up = true }

-- The check value of the checksum's definition
check_value : checksum_ieee (utf8 "123456789") ≡ 0xcbf43926
unfolding checksum_ieee utf8
check_value = refl

-- A text and its checksum are one lock.
shared_number : key_number (Key.text "123456789") ≡ key_number (Key.number (pos 0xcbf43926))
unfolding key_number checksum_ieee utf8
shared_number = refl

g_lock-g_unlock_example :
    let mid = (g_lock one_session (Key.number (pos 5)) (none, free)).1 in
    (n : ℤ) × (key_number (Key.number (pos 5)) ≡ some n)
    × (mid.1.count n ≡ 0 + 1)
    × ((j : ℤ) → (g_unlock one_session (Key.number (pos 5)) mid).1.1.count j ≡ 0)
unfolding g_lock g_unlock
g_lock-g_unlock_example =
    g_lock-g_unlock one_session (Key.number (pos 5)) none free tt refl refl refl
