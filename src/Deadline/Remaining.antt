-- ===== src/Deadline/Remaining.antt =====
-- What is left of a deadline of src/deadline.c.
use vless_core_cli.Prelude.{
  ℕ, zero, suc, ◌+◌, ◌-◌, ◌^◌, ◌≤◌, ◌<◌, true, some, ltb, ◌≡◌, refl, ◌⊎◌, inl, inr, arith,
  Bool-cases,
}
use vless_core_cli.Deadline.{
  ℤ, pos, negsuc, int_max, Deadline, Current, begin, is_active, remaining, limit, pause, resume,
}

-- A pause keeps what is left of an active deadline: however late the work is resumed, up to 2 ^ 31 ms
-- before the clock's 64 bits run out, as much is left then as at the pause, and the deadline is
-- active again.
pub remaining-resume :
    (d : Deadline) (now later : ℕ)
    → d.active ≡ true
    → later + 2 ^ 31 < 2 ^ 64
    → let c = resume (pause (some d) now) later in
      (remaining c later ≡ remaining (some d) now) × (is_active c ≡ true)
unfolding remaining pause resume is_active
remaining-resume d now later h fits = ground arith

-- A deadline that has begun with a timeout of 1 to INT_MAX, its end within the clock's 64 bits, has
-- left its timeout less the time gone since, and 0 from its end on.
pub remaining-begin :
    (d : Deadline) (now t elapsed : ℕ)
    → 1 ≤ t
    → t ≤ int_max
    → now + t < 2 ^ 64
    → remaining (begin (some d) now (pos t)) (now + elapsed) ≡ t - elapsed
unfolding remaining begin
remaining-begin d now zero elapsed p q r = absurd (omega arith)
remaining-begin d now (suc t) elapsed p q r = ground arith

-- At most a timeout, if that is not negative.
abbrev pub IsWithin : ℕ → ℤ → Type 0
IsWithin n (pos t) = n ≤ t
IsWithin n (negsuc k) = Unit

-- The limit on a wait under an active deadline: never negative, never more than is left, and never
-- more than a timeout that is not negative; one of the two.
pub limit_lem :
    (c : Current) (now : ℕ) (timeout : ℤ)
    → is_active c ≡ true
    → (n : ℕ) × (limit c now timeout ≡ pos n)
      × (n ≤ remaining c now)
      × IsWithin n timeout
      × ((n ≡ remaining c now) ⊎ (timeout ≡ pos n))
unfolding limit
limit_lem c now (negsuc k) h = (remaining c now, ground arith, omega arith, tt, inl refl)
limit_lem c now (pos t) h = elim (Bool-cases (ltb (remaining c now) t)) [
  | inl e ↦ (remaining c now, ground arith, omega arith, ground arith, inl refl)
  | inr e ↦ (t, ground arith, ground arith, omega arith, inr refl)
]
