-- ===== src/Control/Matching.antt =====
-- Which peers the server matches to a session.
use mathlib.Core.Logic.{if_pos, if_neg}
use redfog.Base.{
  ℕ, ◌+◌, ◌-◌, ◌≡◌, ◌≢◌, ◌⊎◌, inl, inr, refl, subst, ap, ◌∙◌, ◌==◌, ltb, if◌then◌else◌, Bool, true,
  false, Option, none, some, List, [], ◌∷◌, get, Unique, length, slice, arith,
}
use redfog.Base.Outcome.{Outcome, returns, ◌>>=◌, >>=-eq-returns}
use redfog.Base.Reads.{le_u16_at, le_u32_at}
use redfog.Control.Wire.{
  opened, from_type_and_payload, ControlMessage, Parsed, ok, err, parse, decrypt_wrapper,
  open_inner, is_encrypted_message, serverbound_iv, control_msg_encrypted,
}
use redfog.Control.Server.{
  tried, match_with, matched, Peers, Call, set_data, find_match, handle_message, receive_unmatched,
  on_peer_connected,
}

if-right :
    {A : Type 0} (c : Bool) (x y : Outcome A) {b : A}
    → (if c then x else y) ≡ returns b
    → x ≢ returns b
    → y ≡ returns b
if-right true x y h n = absurd (n h)
if-right false x y h n = h

opened-ok :
    (sequence_number : ℕ) (answer : Option (List ℕ)) (o : ℕ × List ℕ)
    → opened sequence_number answer ≡ ok o
    → answer ≡ some o.1
opened-ok sequence_number none o h = absurd (cc h)
opened-ok sequence_number (some plaintext) o h = cc h

module _ (gcm_decrypt : List ℕ → List ℕ → List ℕ → List ℕ → Option (List ℕ)) where
  -- A payload carries its sequence number, then its tag, then what the cipher opens with both.
  abbrev pub Opens : List ℕ → List ℕ → Type 0
  Opens rikey payload =
      (sequence_number : ℕ) × (tag : List ℕ) × (ciphertext : List ℕ) × (plaintext : List ℕ)
      × (le_u32_at payload 0 ≡ returns sequence_number)
      × (slice payload 4 20 ≡ returns tag)
      × (slice payload 20 (length payload) ≡ returns ciphertext)
      × (gcm_decrypt ciphertext rikey (serverbound_iv sequence_number) tag ≡ some plaintext)

  -- The cipher accepts, under a key, the tag and the ciphertext that a message has in its place, with the
  -- message's own sequence number.
  abbrev pub Authentic : List ℕ → List ℕ → Type 0
  Authentic rikey buffer =
      (len : ℕ) × (payload : List ℕ) × (le_u16_at buffer 2 ≡ returns len)
      × (slice buffer 4 (4 + len) ≡ returns payload)
      × Opens rikey payload

  decrypt_wrapper-Opens :
      (payload rikey : List ℕ) (o : ℕ × List ℕ)
      → decrypt_wrapper gcm_decrypt payload rikey ≡ returns (ok o)
      → Opens rikey payload
  unfolding decrypt_wrapper
  decrypt_wrapper-Opens payload rikey o h =
      let long = if-right (ltb (length payload) 24) _ _ h (λ q. cc q) in
      let (n, at, e) = >>=-eq-returns (le_u32_at payload 0) _ long in
      let (tag, at', e') = >>=-eq-returns (slice payload 4 20) _ e in
      let (text, at'', e'') = >>=-eq-returns (slice payload 20 (length payload)) _ e' in
      (n, tag, text, o.1, at, at', at'', opened-ok n _ o (cc e''))

  open_inner-ok :
      (answer : Parsed (ℕ × List ℕ)) (m : ControlMessage)
      → open_inner answer ≡ returns (ok m)
      → (o : ℕ × List ℕ) × (answer ≡ ok o)
  unfolding open_inner
  open_inner-ok (err e) m h = absurd (cc h)
  open_inner-ok (ok o) m h = (o, refl)

  encrypted-branch :
      (t : ℕ) (payload rikey : List ℕ) (m : ControlMessage)
      → (t == control_msg_encrypted) ≡ true
      → (if t == control_msg_encrypted
          then decrypt_wrapper gcm_decrypt payload rikey >>= open_inner
          else from_type_and_payload t payload)
        ≡ returns (ok m)
      → Opens rikey payload
  encrypted-branch t payload rikey m test h =
      let h' : (decrypt_wrapper gcm_decrypt payload rikey >>= open_inner) ≡ returns (ok m) =
        subst
          (λ b.
            (if b
              then decrypt_wrapper gcm_decrypt payload rikey >>= open_inner
              else from_type_and_payload t payload)
            ≡ returns (ok m))
          test h in
      let (answer, e, e') =
        >>=-eq-returns (decrypt_wrapper gcm_decrypt payload rikey) open_inner h' in
      let (o, is_ok) = open_inner-ok answer m e' in
      decrypt_wrapper-Opens payload rikey o (e ∙ ap returns is_ok)

  same_type :
      (read : Outcome ℕ) (t t' : ℕ)
      → read ≡ returns t
      → read ≡ returns t'
      → (t == control_msg_encrypted) ≡ true
      → (t' == control_msg_encrypted) ≡ true
  same_type read t t' h k e = let same : t ≡ t' = cc (h, k) in ground (arith, same, e)

  parse-Authentic :
      (buffer rikey : List ℕ) (m : ControlMessage)
      → is_encrypted_message buffer ≡ returns true
      → parse gcm_decrypt buffer rikey ≡ returns (ok m)
      → Authentic rikey buffer
  unfolding parse is_encrypted_message
  parse-Authentic buffer rikey m h k =
      let typed = if-right (ltb (length buffer) 4) _ _ h (λ q. cc q) in
      let (t, t_read, is_encrypted) = >>=-eq-returns (le_u16_at buffer 0) _ typed in
      let long = if-right (ltb (length buffer) 4) _ _ k (λ q. cc q) in
      let (t', t'_read, e) = >>=-eq-returns (le_u16_at buffer 0) _ long in
      let (len, len_at, e') = >>=-eq-returns (le_u16_at buffer 2) _ e in
      let whole = if-right (ltb (length buffer - 4) len) _ _ e' (λ q. cc q) in
      let (payload, s, e'') = >>=-eq-returns (slice buffer 4 (4 + len)) _ whole in
      let opens =
        encrypted-branch t' payload rikey m
          (same_type (le_u16_at buffer 0) t t' t_read t'_read (cc is_encrypted)) e'' in
      (len, payload, len_at, s, opens)

  find_match-some :
      (dec : Discrete (List ℕ)) (buffer : List ℕ) (regs : List (List ℕ × ℕ)) (rikey : List ℕ)
      (epoch : ℕ)
      → Unique dec regs
      → find_match gcm_decrypt buffer regs ≡ returns (some (rikey, epoch))
      → (get dec rikey regs ≡ some epoch)
        × ((m : ControlMessage) × (parse gcm_decrypt buffer rikey ≡ returns (ok m)))
  unfolding find_match get
  find_match-some dec buffer [] rikey epoch u h = absurd (cc h)
  find_match-some dec buffer ((k, e) ∷ regs) rikey epoch u h =
      let (answer, read, rest) = >>=-eq-returns (parse gcm_decrypt buffer k) _ h in
      after answer read rest (find_match-some dec buffer regs rikey epoch u.1)
    where
      after :
          (answer : Parsed ControlMessage)
          → parse gcm_decrypt buffer k ≡ returns answer
          → tried (k, e) (find_match gcm_decrypt buffer regs) answer ≡ returns (some (rikey, epoch))
          → (find_match gcm_decrypt buffer regs ≡ returns (some (rikey, epoch))
              → (get dec rikey regs ≡ some epoch)
                × ((m : ControlMessage) × (parse gcm_decrypt buffer rikey ≡ returns (ok m))))
          → (get dec rikey ((k, e) ∷ regs) ≡ some epoch)
            × ((m : ControlMessage) × (parse gcm_decrypt buffer rikey ≡ returns (ok m)))
      after (ok m) read rest later =
          let same : k ≡ rikey = cc rest in
          (
            if_pos (dec k rikey) same _ _ ∙ cc rest,
            (m, subst (λ (j : List ℕ). parse gcm_decrypt buffer j ≡ returns (ok m)) same read),
          )
      after (err x) read rest later =
          let (here, (m, parsed)) = later rest in
          (
            elim (dec k rikey) [
              | yes p ↦ absurd (cc (here, subst (λ (j : List ℕ). get dec j regs ≡ none) p u.0))
              | no p ↦ if_neg (dec k rikey) p _ _ ∙ here
            ],
            (m, parsed),
          )

  -- Nothing happened, or the peer was matched to a registered key that the message authenticates.
  abbrev pub Decided :
      Discrete (List ℕ) → List (List ℕ × ℕ) → ℕ → List ℕ → Peers → Peers × List Call → Type 0
  Decided dec regs id buffer peers result =
      (result ≡ (peers, []))
      ⊎ ((rikey : List ℕ) × (epoch : ℕ) × (calls : List Call) × (result
            ≡ (set_data id (some (matched rikey epoch)) peers, on_peer_connected rikey ∷ calls))
          × (get dec rikey regs ≡ some epoch)
          × Authentic rikey buffer)

  -- With one registration for a key, a message from a peer that is not yet matched, where its handling
  -- does not panic, either changes nothing, or it matches the peer to a registered key, under which the
  -- cipher accepted the tag and the ciphertext that the message has in their places, with the message's
  -- own sequence number.
  pub match_authenticates :
      (dec : Discrete (List ℕ)) (regs : List (List ℕ × ℕ)) (id : ℕ) (buffer : List ℕ)
      (peers : Peers) (result : Peers × List Call)
      → Unique dec regs
      → receive_unmatched gcm_decrypt regs id buffer peers ≡ returns result
      → Decided dec regs id buffer peers result
  unfolding receive_unmatched match_with
  match_authenticates dec regs id buffer peers result u h =
      let (encrypted, e, rest) = >>=-eq-returns (is_encrypted_message buffer) _ h in
      decided encrypted e rest
    where
      decided :
          (encrypted : Bool)
          → is_encrypted_message buffer ≡ returns encrypted
          → (if encrypted
              then find_match gcm_decrypt buffer regs >>= match_with gcm_decrypt id buffer peers
              else returns (peers, []))
            ≡ returns result
          → Decided dec regs id buffer peers result
      decided false e rest = inl (cc rest)
      decided true e rest =
          let (found, f, after) = >>=-eq-returns (find_match gcm_decrypt buffer regs) _ rest in
          searched found f after
        where
          searched :
              (found : Option (List ℕ × ℕ))
              → find_match gcm_decrypt buffer regs ≡ returns found
              → match_with gcm_decrypt id buffer peers found ≡ returns result
              → Decided dec regs id buffer peers result
          searched none f after = inl (cc after)
          searched (some (rikey, epoch)) f after =
              let (calls, _, r) =
                >>=-eq-returns (handle_message gcm_decrypt rikey buffer) _ after in
              let (registered, (m, parsed)) = find_match-some dec buffer regs rikey epoch u f in
              inr (rikey, epoch, calls, cc r, registered, parse-Authentic buffer rikey m e parsed)
