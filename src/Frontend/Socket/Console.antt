-- ===== src/Frontend/Socket/Console.antt =====
-- packages/frontend/src/hooks/useServerWebSocket.ts: the lines of the console, against the whole log.
use nexus_panel.Common.{
  drop, ℕ, zero, suc, ◌+◌, ◌-◌, ◌≤◌, ltb, ◌≡◌, refl, sym, ap, ◌∙◌, inl, inr, Option, none, some,
  List, [], ◌∷◌, ◌++◌, length, length-append, arith, Bool-cases,
}
use nexus_panel.Common.Texts.{Text}
use nexus_panel.Frontend.Socket.{
  Message, Event, connect, message, disconnect, connect_error, Hook, max_lines, last, with_line,
  with_state, on_message, step, run, initial, GrpcState,
}

module _ {A : Type 0} where
  drop-append : (k : ℕ) (xs ys : List A) → k ≤ length xs → drop k xs ++ ys ≡ drop k (xs ++ ys)
  drop-append zero xs ys h = refl
  drop-append (suc k) [] ys h = absurd (omega arith)
  drop-append (suc k) (x ∷ xs) ys h = drop-append k xs ys (omega arith)

  drop-drop : (j k : ℕ) (xs : List A) → drop j (drop k xs) ≡ drop (k + j) xs
  drop-drop j zero xs = rw (let e : 0 + j ≡ j = omega arith in e)
  drop-drop zero (suc k) [] = rw (let e : suc k + 0 ≡ suc (k + 0) = omega arith in e)
  drop-drop (suc j) (suc k) [] = rw (let e : suc k + suc j ≡ suc (k + suc j) = omega arith in e)
  drop-drop j (suc k) (x ∷ xs) =
      drop-drop j k xs ∙ rw (let e : suc k + j ≡ suc (k + j) = omega arith in e)

  length-drop : (k : ℕ) (xs : List A) → length (drop k xs) ≡ length xs - k
  length-drop zero xs = omega arith
  length-drop (suc k) [] = omega arith
  length-drop (suc k) (x ∷ xs) = omega (arith, length-drop k xs)

  length-last : (n : ℕ) (xs : List A) → length (last n xs) ≤ n
  length-last n xs = omega (arith, length-drop (length xs - n) xs)

  last-all : (n : ℕ) (xs : List A) → length xs ≤ n → last n xs ≡ xs
  last-all n xs h = rw (let e : length xs - n ≡ 0 = omega arith in e)

  -- The last entries of the last entries and one more are the last entries of all.
  last-last : (n : ℕ) (xs : List A) (x : A) → last n (last n xs ++ x ∷ []) ≡ last n (xs ++ x ∷ [])
  last-last n xs x =
      let k = length xs - n in
      let same : last n xs ++ x ∷ [] ≡ drop k (xs ++ x ∷ []) =
        drop-append k xs (x ∷ []) (omega arith) in
      let size : length (drop k (xs ++ x ∷ [])) ≡ length xs + 1 - k =
        length-drop k (xs ++ x ∷ []) ∙ ap (λ m. m - k) (length-append xs (x ∷ [])) in
      let whole : length (xs ++ x ∷ []) ≡ length xs + 1 = length-append xs (x ∷ []) in
      rw same (
        drop-drop (length (drop k (xs ++ x ∷ [])) - n) k (xs ++ x ∷ [])
        ∙ rw (
            let e : k + (length (drop k (xs ++ x ∷ [])) - n) ≡ length (xs ++ x ∷ []) - n =
              omega (arith, size, whole) in
            e))

with_line-last :
    (line : Text) (xs : List Text)
    → with_line line (last max_lines xs) ≡ last max_lines (xs ++ line ∷ [])
with_line-last line xs =
    elim (Bool-cases (ltb max_lines (length (last max_lines xs ++ line ∷ [])))) [
      | inl e ↦ rw (e) (last-last max_lines xs line)
      | inr e ↦ rw (e) (
          sym (last-all max_lines (last max_lines xs ++ line ∷ []) (ground arith))
          ∙ last-last max_lines xs line)
    ]

-- The whole console of the daemon, as far as the messages tell it: what a history says replaces what was known.
abbrev pub logged : Message → List Text → List Text
logged (Message.console_output (some line)) log = log ++ line ∷ []
logged (Message.console_history (some lines)) log = lines
logged _ log = log

abbrev pub log_of : List Event → List Text → List Text
log_of [] log = log
log_of (message m ∷ es) log = log_of es (logged m log)
log_of (_ ∷ es) log = log_of es log

abbrev pub Shows : List Text → Hook → Type 0
Shows log h = h.console_lines ≡ last max_lines log

with_state-lines :
    (o : Option GrpcState) (h : Hook) → (with_state o h).console_lines ≡ h.console_lines
with_state-lines none h = refl
with_state-lines (some s) h = refl

on_message-Shows :
    (m : Message) (log : List Text) (h : Hook) → Shows log h → Shows (logged m log) (on_message m h)
unfolding on_message
on_message-Shows (Message.console_output none) log h e = e
on_message-Shows (Message.console_output (some line)) log h e = rw e (with_line-last line log)
on_message-Shows (Message.console_history none) log h e = e
on_message-Shows (Message.console_history (some lines)) log h e = refl
on_message-Shows (Message.stats_update none) log h e = e
on_message-Shows (Message.stats_update (some raw)) log h e = with_state-lines raw.state _ ∙ e
on_message-Shows (Message.power_state state) log h e = with_state-lines state h ∙ e
on_message-Shows Message.auth_success log h e = e
on_message-Shows Message.other log h e = e

run-Shows :
    (stored : Option Text) (uuid : Text) (es : List Event) (log : List Text) (h : Hook)
    → Shows log h
    → Shows (log_of es log) (run stored uuid es h)
unfolding run step
run-Shows stored uuid [] log h e = e
run-Shows stored uuid (connect ∷ es) log h e = run-Shows stored uuid es log _ e
run-Shows stored uuid (message m ∷ es) log h e =
    run-Shows stored uuid es (logged m log) (on_message m h) (on_message-Shows m log h e)
run-Shows stored uuid (disconnect ∷ es) log h e = run-Shows stored uuid es log _ e
run-Shows stored uuid (connect_error ∷ es) log h e = run-Shows stored uuid es log _ e

-- After any events of its socket, through lost connections too, the page of a server shows the last 2000 lines of
-- the log that the messages tell, in order, and no others; it never keeps more than 2000.
pub run-console_lines :
    (stored : Option Text) (uuid : Text) (es : List Event)
    → ((run stored uuid es initial).console_lines ≡ last 2000 (log_of es []))
      × (length (run stored uuid es initial).console_lines ≤ 2000)
run-console_lines stored uuid es =
    let shows = run-Shows stored uuid es [] initial refl in
    (shows, rw shows (length-last max_lines (log_of es [])))
