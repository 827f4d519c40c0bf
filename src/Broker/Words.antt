-- ===== src/Broker/Words.antt =====
-- The words that a POSIX shell reads from the command line of the payload.
use redfog.Base.{
  ℕ, ◌==◌, ◌≡◌, ◌≢◌, Bool, true, false, Bool-cases, inl, inr, List, [], ◌∷◌, ◌++◌, arith, subst,
  sym,
}
use redfog.Base.Text.{Text}
use redfog.Broker.Quoting.{replace_quotes, shell_quote, join_spaced, payload_cmd}

-- The rules of POSIX for quote and backslash: `ShellWord inside text value` says that the text, read up to
-- its end from inside or outside of single quotes, adds the value to a word. No character of the text
-- outside of quotes stands for itself.
pub data ShellWord : Bool → Text → Text → Type 0 where
  ends : ShellWord false [] []
  opens : {w s : Text} → ShellWord true w s → ShellWord false (39 ∷ w) s
  closes : {w s : Text} → ShellWord false w s → ShellWord true (39 ∷ w) s
  literal : {w s : Text} (c : ℕ) → c ≢ 39 → ShellWord true w s → ShellWord true (c ∷ w) (c ∷ s)
  escaped :
      {w s : Text} (c : ℕ) → c ≢ 10 → ShellWord false w s → ShellWord false (92 ∷ c ∷ w) (c ∷ s)

-- Words apart by one space each, none of them without a character.
pub data ShellWords : Text → List Text → Type 0 where
  no_word : ShellWords [] []
  last_word : {c : ℕ} {w s : Text} → ShellWord false (c ∷ w) s → ShellWords (c ∷ w) (s ∷ [])
  next_word :
      {c : ℕ} {w s ws : Text} {ss : List Text}
      → ShellWord false (c ∷ w) s
      → ShellWords ws ss
      → ShellWords ((c ∷ w) ++ 32 ∷ ws) (s ∷ ss)

replace_quotes-ShellWord : (s : Text) → ShellWord true (replace_quotes s ++ 39 ∷ []) s
unfolding replace_quotes
replace_quotes-ShellWord [] = closes ends
replace_quotes-ShellWord (c ∷ cs) = elim (Bool-cases (c == 39)) [
  | inl h ↦
      let quote : c ≡ 39 = ground (arith, h) in
      rw h (
        subst
          (λ (d : ℕ). ShellWord true (39 ∷ 92 ∷ 39 ∷ 39 ∷ replace_quotes cs ++ 39 ∷ []) (d ∷ cs))
          (sym quote)
          (closes (escaped 39 (λ e. omega (arith, e)) (opens (replace_quotes-ShellWord cs)))))
  | inr h ↦ rw h (literal c (λ e. ground (arith, h, e)) (replace_quotes-ShellWord cs))
]

shell_quote-ShellWord : (s : Text) → ShellWord false (shell_quote s) s
unfolding shell_quote
shell_quote-ShellWord s = opens (replace_quotes-ShellWord s)

-- Whatever characters the arguments of the payload have, quotes among them, a shell reads the command
-- line as those arguments, each a word of its own.
pub payload_cmd-ShellWords : (payload : List Text) → ShellWords (payload_cmd payload) payload
unfolding payload_cmd join_spaced shell_quote
payload_cmd-ShellWords [] = no_word
payload_cmd-ShellWords (s ∷ []) = last_word (shell_quote-ShellWord s)
payload_cmd-ShellWords (s ∷ t ∷ payload) =
    next_word (shell_quote-ShellWord s) (payload_cmd-ShellWords (t ∷ payload))
