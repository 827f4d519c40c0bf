-- ===== src/Control/Decoding.antt =====
-- Input events whose decoding cannot panic.
use redfog.Base.{
  ℕ, ◌≤◌, ◌≡◌, ◌≢◌, ◌⊎◌, inl, inr, refl, ◌==◌, ltb, true, ◌||◌, List, length, ==_iff, arith, ℤ,
}
use redfog.Base.Reads.{
  index, le_u16_at, be_u16_at, le_u32_at, Returns, bind-Returns, if-Returns, index-Returns,
  le_u16_at-Returns, be_u16_at-Returns, le_u32_at-Returns,
}
use redfog.Control.Input.{
  InputEvent, decode_move_absolute, decode_move_relative, decode_scroll, decode_touch,
  decode_gamepad, decode_body, scroll_vertical, scroll_horizontal, scroll_horizontal_type,
  touch_type,
}

abbrev pub IsScroll : ℕ → Type 0
IsScroll event_type = (event_type ≡ 10) ⊎ (event_type ≡ scroll_horizontal_type)

decode_move_absolute-Returns : (body : List ℕ) → Returns (decode_move_absolute body)
unfolding decode_move_absolute
decode_move_absolute-Returns body =
    if-Returns (ltb (length body) 10) _ _ (λ _. (_, refl))
      (λ e.
        let at : (i : ℕ) → i ≤ 8 → Returns (be_u16_at body i) =
          λ i h. be_u16_at-Returns body i (ground (arith, e, h)) in
        bind-Returns (be_u16_at body 0) _ (at 0 (omega arith)) (λ _.
          bind-Returns (be_u16_at body 2) _ (at 2 (omega arith)) (λ _.
            bind-Returns (be_u16_at body 6) _ (at 6 (omega arith))
              (λ _. bind-Returns (be_u16_at body 8) _ (at 8 (omega arith)) (λ _. (_, refl))))))

decode_move_relative-Returns : (body : List ℕ) → Returns (decode_move_relative body)
unfolding decode_move_relative
decode_move_relative-Returns body =
    if-Returns (ltb (length body) 4) _ _ (λ _. (_, refl))
      (λ e. bind-Returns (be_u16_at body 0) _ (be_u16_at-Returns body 0 (ground (arith, e))) (λ _.
        bind-Returns (be_u16_at body 2) _ (be_u16_at-Returns body 2 (ground (arith, e)))
          (λ _. (_, refl))))

decode_scroll-Returns :
    (event : ℤ → InputEvent) (body : List ℕ) → length body ≢ 1 → Returns (decode_scroll event body)
unfolding decode_scroll
decode_scroll-Returns event body h =
    if-Returns (length body == 0) _ _ (λ _. (_, refl))
      (λ e.
        bind-Returns (be_u16_at body 0) _ (be_u16_at-Returns body 0 (ground (arith, e, h)))
          (λ _. (_, refl)))

decode_touch-Returns : (body : List ℕ) → Returns (decode_touch body)
unfolding decode_touch
decode_touch-Returns body =
    if-Returns (ltb (length body) 28) _ _ (λ _. (_, refl))
      (λ e.
        let at : (i : ℕ) → i ≤ 24 → Returns (le_u32_at body i) =
          λ i h. le_u32_at-Returns body i (ground (arith, e, h)) in
        bind-Returns (index body 0) _ (index-Returns body 0 (ground (arith, e))) (λ _.
          bind-Returns (le_u32_at body 4) _ (at 4 (omega arith)) (λ _.
            bind-Returns (le_u32_at body 8) _ (at 8 (omega arith)) (λ _.
              bind-Returns (le_u32_at body 12) _ (at 12 (omega arith))
                (λ _. bind-Returns (le_u32_at body 16) _ (at 16 (omega arith)) (λ _. (_, refl)))))))

decode_gamepad-Returns : (body : List ℕ) → Returns (decode_gamepad body)
unfolding decode_gamepad
decode_gamepad-Returns body =
    if-Returns (ltb (length body) 26) _ _ (λ _. (_, refl))
      (λ e.
        let word : (i : ℕ) → i ≤ 24 → Returns (le_u16_at body i) =
          λ i h. le_u16_at-Returns body i (ground (arith, e, h)) in
        let byte : (i : ℕ) → i ≤ 25 → Returns (index body i) =
          λ i h. index-Returns body i (ground (arith, e, h)) in
        bind-Returns (le_u16_at body 2) _ (word 2 (omega arith)) (λ _.
          bind-Returns (le_u16_at body 8) _ (word 8 (omega arith)) (λ _.
            bind-Returns (index body 10) _ (byte 10 (omega arith)) (λ _.
              bind-Returns (index body 11) _ (byte 11 (omega arith)) (λ _.
                bind-Returns (le_u16_at body 12) _ (word 12 (omega arith)) (λ _.
                  bind-Returns (le_u16_at body 14) _ (word 14 (omega arith)) (λ _.
                    bind-Returns (le_u16_at body 16) _ (word 16 (omega arith)) (λ _.
                      bind-Returns (le_u16_at body 18) _ (word 18 (omega arith)) (λ _.
                        bind-Returns (le_u16_at body 22) _ (word 22 (omega arith))
                          (λ _. (_, refl)))))))))))

pub decode_body-Returns :
    (event_type : ℕ) (body : List ℕ)
    → (IsScroll event_type → length body ≢ 1)
    → Returns (decode_body event_type body)
unfolding decode_body
decode_body-Returns event_type body h =
    let is : (n : ℕ) → (event_type == n) ≡ true → event_type ≡ n =
      λ n e. (==_iff event_type n).0 e in
    if-Returns (event_type == 3) _ _ (λ _. (_, refl))
      (λ _.
        if-Returns (event_type == 4) _ _ (λ _. (_, refl))
          (λ _.
            if-Returns (event_type == 5) _ _ (λ _. decode_move_absolute-Returns body)
              (λ _.
                if-Returns (event_type == 7) _ _ (λ _. decode_move_relative-Returns body)
                  (λ _.
                    if-Returns (event_type == 8) _ _ (λ _. (_, refl))
                      (λ _.
                        if-Returns (event_type == 9) _ _ (λ _. (_, refl))
                          (λ _.
                            if-Returns (event_type == 10) _ _
                              (λ e. decode_scroll-Returns scroll_vertical body (h (inl (is 10 e))))
                              (λ _.
                                if-Returns (event_type == scroll_horizontal_type) _ _
                                  (λ e.
                                    decode_scroll-Returns scroll_horizontal body
                                      (h (inr (is scroll_horizontal_type e))))
                                  (λ _.
                                    if-Returns (event_type == touch_type) _ _
                                      (λ _. decode_touch-Returns body)
                                      (λ _.
                                        if-Returns ((event_type == 13) || (event_type == 12)) _ _
                                          (λ _. decode_gamepad-Returns body)
                                          (λ _. (_, refl)))))))))))
