-- ===== src/Frontend/Socket/Retries.antt =====
-- packages/frontend/src/hooks/useServerWebSocket.ts: when a lost connection is tried again.
use nexus_panel.Common.{
  ℕ, zero, suc, ◌*◌, ◌≤◌, if◌then◌else◌, leb, ◌≡◌, refl, inl, inr, Option, List, [], ◌∷◌, arith,
  All, Bool-cases,
}
use nexus_panel.Common.Texts.{Text}
use nexus_panel.Frontend.Socket.{
  Message, Event, connect, message, disconnect, connect_error, Hook, with_state, on_message,
  doubled, delay_of, step, run, initial, GrpcState,
}
use mathlib.Core.Option.{none, some}
use Prim.Native.Nat.{◌^◌}
use native.Mathlib.Numerals.{unary_clauses}

-- The connections that were lost since the last that succeeded.
abbrev pub lost_since : List Event → ℕ → ℕ
lost_since [] n = n
lost_since (connect ∷ es) n = lost_since es 0
lost_since (message m ∷ es) n = lost_since es n
lost_since (disconnect ∷ es) n = lost_since es (suc n)
lost_since (connect_error ∷ es) n = lost_since es n

doubled_lem : (n : ℕ) → doubled n ≡ 1000 * 2 ^ n
doubled_lem zero = refl
doubled_lem (suc n) =
    rw (doubled_lem n) (let e : 2 ^ suc n ≡ 2 ^ n * 2 = simp unary_clauses in rw (e) (omega arith))

doubled_low : (n : ℕ) → 1000 ≤ doubled n
doubled_low zero = omega arith
doubled_low (suc n) = omega (arith, doubled_low n)

abbrev pub IsWithin : ℕ → Type 0
IsWithin d = (1000 ≤ d) × (d ≤ 30000)

delay_of-IsWithin : (n : ℕ) → IsWithin (delay_of n)
delay_of-IsWithin n = elim (Bool-cases (leb (doubled n) 30000)) [
  | inl e ↦ rw (e) (doubled_low n, ground arith)
  | inr e ↦ rw (e) (omega arith, omega arith)
]

abbrev Counts : ℕ → Hook → Type 0
Counts n h = (h.retries ≡ n) × All IsWithin h.delays

with_state-Counts :
    (o : Option GrpcState) (n : ℕ) (h : Hook) → Counts n h → Counts n (with_state o h)
with_state-Counts none n h c = c
with_state-Counts (some s) n h c = c

on_message-Counts : (m : Message) (n : ℕ) (h : Hook) → Counts n h → Counts n (on_message m h)
unfolding on_message
on_message-Counts (Message.console_output none) n h c = c
on_message-Counts (Message.console_output (some line)) n h c = c
on_message-Counts (Message.console_history none) n h c = c
on_message-Counts (Message.console_history (some lines)) n h c = c
on_message-Counts (Message.stats_update none) n h c = c
on_message-Counts (Message.stats_update (some raw)) n h c = with_state-Counts raw.state n _ c
on_message-Counts (Message.power_state state) n h c = with_state-Counts state n h c
on_message-Counts Message.auth_success n h c = c
on_message-Counts Message.other n h c = c

run-Counts :
    (stored : Option Text) (uuid : Text) (es : List Event) (n : ℕ) (h : Hook)
    → Counts n h
    → Counts (lost_since es n) (run stored uuid es h)
unfolding run step
run-Counts stored uuid [] n h c = c
run-Counts stored uuid (connect ∷ es) n h c = run-Counts stored uuid es 0 _ (refl, c.1)
run-Counts stored uuid (message m ∷ es) n h c =
    run-Counts stored uuid es n (on_message m h) (on_message-Counts m n h c)
run-Counts stored uuid (disconnect ∷ es) n h c =
    run-Counts stored uuid es (suc n) _ (rw (c.0) refl, (delay_of-IsWithin h.retries, c.1))
run-Counts stored uuid (connect_error ∷ es) n h c = run-Counts stored uuid es n _ c

-- After any events, every delay that was set is between one and thirty seconds. When n connections have been lost
-- since the last that succeeded, the next loss sets a delay of 2^n seconds, or of thirty seconds where that
-- is less.
pub run-delays :
    (stored : Option Text) (uuid : Text) (es : List Event)
    → let h = run stored uuid es initial in
      let wanted = 1000 * 2 ^ lost_since es 0 in
      All IsWithin h.delays
      × ((step stored uuid disconnect h).delays
          ≡ (if leb wanted 30000 then wanted else 30000) ∷ h.delays)
unfolding step
run-delays stored uuid es =
    let (count, within) = run-Counts stored uuid es 0 initial (refl, tt) in
    (within, rw (count) (rw (doubled_lem (lost_since es 0)) refl))
