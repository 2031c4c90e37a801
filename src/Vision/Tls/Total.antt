-- ===== src/Vision/Tls/Total.antt =====
-- src/vision.c: every observation of `vision_observe_tls` ends in a wrapper with sound readers.
use vless_core_cli.Prelude.{
  choose_left, choose_right, Bool, true, false, ◌||◌, some, ◌==◌, if◌then◌else◌, length, Bytes, ◌≡◌,
  refl, sym, ◌∙◌, inl, inr, arith, Bool-cases,
}
use vless_core_cli.Prelude.Loops.{Read, stuck, bad, done, Ended}
use vless_core_cli.Vision.Tls.{Reader}
use vless_core_cli.Vision.Tls.Records.{Wrap, Observed, store, stored, observe_tls}
use vless_core_cli.Vision.Tls.Sound.{
  Steady, IsSound, Disabled, Held, InMessage-moved, observe-Ended,
}

abbrev own : Bool → Wrap → Reader
own server w = if server then w.server_tls else w.client_tls

abbrev idle : Reader → Reader
idle s = record s { last_application = false }

idle-Steady : (server : Bool) (s : Reader) → Steady server s → Steady server (idle s)
idle-Steady server s (r, m) =
    (r, InMessage-moved server s s.record_bytes s.record_left s.records false m)

own-Steady :
    (server : Bool) (w : Wrap)
    → w.flags.tls_disabled ≡ false
    → IsSound w
    → Steady server (idle (own server w))
own-Steady true w on v = idle-Steady true w.server_tls (v on).1
own-Steady false w on v = idle-Steady false w.client_tls (v on).0

store-IsSound :
    (server : Bool) (w : Wrap) (o : Observed)
    → IsSound w
    → Steady server o.reader
    → o.flags.tls_disabled ≡ w.flags.tls_disabled
    → IsSound (store server w o)
store-IsSound true w o v steady same on = ((v (sym same ∙ on)).0, steady)
store-IsSound false w o v steady same on = (steady, (v (sym same ∙ on)).1)

disabled-IsSound :
    (server : Bool) (w : Wrap) (o : Observed)
    → o.flags.tls_disabled ≡ true
    → IsSound (store server w o)
disabled-IsSound true w o off on = cc (off, on)
disabled-IsSound false w o off on = cc (off, on)

stored-IsSound :
    (server : Bool) (w : Wrap) (h : Read Observed)
    → IsSound w
    → Ended (λ t. Held server w.flags.tls_disabled t 0) Disabled h
    → (o : Observed) × (stored server w h ≡ some (store server w o)) × IsSound (store server w o)
unfolding Ended
stored-IsSound server w stuck v end = absurd end
stored-IsSound server w (bad o) v end = (o, refl, disabled-IsSound server w o end)
stored-IsSound server w (done o) v (steady, same) =
    (o, refl, store-IsSound server w o v steady same)

wrap_injective : {a b : Wrap} → some a ≡ some b → a ≡ b
wrap_injective e = cc

stored-store :
    (server : Bool) (w t : Wrap) (h : Read Observed)
    → stored server w h ≡ some t
    → (o : Observed) × (store server w o ≡ t)
stored-store server w t stuck e = cc e
stored-store server w t (bad o) e = (o, wrap_injective e)
stored-store server w t (done o) e = (o, wrap_injective e)

pub observe_tls-store :
    (server : Bool) (w t : Wrap) (bytes : Bytes)
    → observe_tls server w bytes ≡ some t
    → (o : Observed) × (store server w o ≡ t)
unfolding observe_tls
observe_tls-store server w t bytes e =
    let o : Observed = record { flags = w.flags; reader = idle (own server w) } in
    let quiet = w.flags.tls_disabled || length bytes == 0 in
    elim (Bool-cases quiet) [
      | inl z ↦ (o, wrap_injective (sym (choose_left quiet _ _ z) ∙ e))
      | inr z ↦ stored-store server w t _ (sym (choose_right quiet _ _ z) ∙ e)
    ]

-- From a wrapper whose readers are sound while it observes, the observation of any bytes of either side
-- ends, changes only the flags and the reader of that side, and gives such a wrapper again: the reader keeps fewer than five bytes of a record's header and
-- fewer than four of a message's until they are complete, no more bytes of a hello's prefix than it
-- waits for and never more than 70, at most four of a field, and its counters stay within the lengths
-- that the peer gave.
pub observe_tls-IsSound :
    (server : Bool) (w : Wrap) (bytes : Bytes)
    → IsSound w
    → (o : Observed) × (observe_tls server w bytes ≡ some (store server w o))
      × IsSound (store server w o)
unfolding observe_tls
observe_tls-IsSound server w bytes v =
    let o : Observed = record { flags = w.flags; reader = idle (own server w) } in
    let quiet = w.flags.tls_disabled || length bytes == 0 in
    elim (Bool-cases w.flags.tls_disabled) [
      | inl off ↦ (o, choose_left quiet _ _ (ground (arith, off)), disabled-IsSound server w o off)
      | inr on ↦
          let steady = own-Steady server w on v in
          elim (Bool-cases (length bytes == 0)) [
            | inl z ↦ (
              o,
              choose_left quiet _ _ (ground (arith, z)),
              store-IsSound server w o v steady refl,
            )
            | inr z ↦
                let (w', e, s) =
                  stored-IsSound server w _ v
                    (observe-Ended server w.flags.tls_disabled o bytes (steady, refl)) in
                (w', choose_right quiet _ _ (ground (arith, on, z)) ∙ e, s)
          ]
    ]
