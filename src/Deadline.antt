-- ===== src/Deadline.antt =====
-- src/deadline.c: the deadline of a thread, over a clock in milliseconds.
pub mod Remaining
use vless_core_cli.Prelude.{
  ℕ, zero, suc, ◌+◌, ◌-◌, ◌*◌, ◌/◌, ◌%◌, ◌^◌, ◌≤◌, ◌<◌, min, max, Bool, true, false, ◌&&◌, ◌||◌,
  not, List, [], ◌∷◌, ◌++◌, Option, none, some, ltb, leb, ◌==◌, if◌then◌else◌, get_elem?, get_or,
  set, take, drop, length, Bytes, size_max, add_size, sub_size, ◌≡◌, refl, sym, ap, ap₂, ◌∙◌, ◌≢◌,
  ◌↔◌, ◌⊎◌, inl, inr, arith, Bool-cases, Option-cases, append-nil, append_assoc, length-append,
  length-take, length-drop, bit, word16, word24, word32, map, take-append-drop,
}

-- The type `int` of the timeouts.
pub data ℤ : Type 0 where
  pos negsuc : ℕ → ℤ

abbrev pub int_max : ℕ
int_max = 0x7fffffff

-- `core_deadline_t`, less its clock: each function takes what the clock says.
pub record Deadline : Type 0 where
  pub until_ms : ℕ
  pub paused_ms : ℕ
  pub active : Bool

-- The deadline of the thread, if it has one: `deadline_current`.
abbrev pub Current : Type 0
Current = Option Deadline

-- `core_deadline_attach`, where the thread key can be made and set
abbrev pub attach : Current
attach = some (record { until_ms = 0; paused_ms = 0; active = false })

abbrev pub at_least_one : ℤ → ℕ
at_least_one (pos zero) = 1
at_least_one (pos (suc n)) = suc n
at_least_one (negsuc n) = 1

-- `core_deadline_begin`
unfoldable pub begin : Current → ℕ → ℤ → Current
begin none now timeout = none
begin (some d) now timeout =
    some (record { until_ms = (now + at_least_one timeout) % 2 ^ 64; paused_ms = 0; active = true })

-- `core_deadline_end`
unfoldable pub end : Current → Current
end none = none
end (some d) = some (record d { active = false; paused_ms = 0 })

-- `core_deadline_active`
unfoldable pub is_active : Current → Bool
is_active none = false
is_active (some d) = d.active

-- `core_deadline_remaining`; at 0 it sets ETIMEDOUT.
unfoldable pub remaining : Current → ℕ → ℕ
remaining none now = int_max
remaining (some d) now =
    if not d.active
    then int_max
    else if leb d.until_ms now
    then 0
    else (let left = d.until_ms - now in if ltb int_max left then int_max else left)

-- `core_deadline_limit`
unfoldable pub limit : Current → ℕ → ℤ → ℤ
limit c now timeout =
    if not (is_active c)
    then timeout
    else (let left = remaining c now in
        elim timeout [ negsuc n ↦ pos left | pos t ↦ if ltb left t then pos left else pos t ])

-- `core_deadline_pause`
unfoldable pub pause : Current → ℕ → Current
pause none now = none
pause (some d) now =
    if d.active
    then some (record d { paused_ms = remaining (some d) now + 1; active = false })
    else some d

-- `core_deadline_resume`
unfoldable pub resume : Current → ℕ → Current
resume none now = none
resume (some d) now =
    if not (d.paused_ms == 0)
    then some
        (record { until_ms = sub_size (add_size now d.paused_ms) 1; paused_ms = 0; active = true })
    else some d
