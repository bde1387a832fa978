-- ===== src/Cmd/Tokens.antt =====
-- The tokens of a line: what the tokenizer of components/cmd_core/cmd_tok.c returns, and that it
-- reads back a line put together of tokens.
use hill_grov.Base.{
  All, All-append, Bool-cases, List, Option, [], ap, append-nil, append_assoc, arith, false, inl,
  inr, length, length-append, none, refl, some, subst, suc, sym, zero, ℕ, ◌++◌, ◌+◌, ◌<◌, ◌∙◌, ◌∷◌,
  ◌≡◌, ◌≤◌,
}
use hill_grov.Cmd.Text.{scan_tokens, cmd_tokenize, is_blank, and_then}

-- A token: some bytes, none of them blank.
abbrev pub IsWord : List ℕ → Type 0
IsWord w = (0 < length w) × All (λ c. is_blank c ≡ false) w

-- The tokens with one blank between each two, as the dispatcher prints them
unfoldable pub join : List ℕ → List (List ℕ) → List ℕ
join w [] = w
join w (x ∷ xs) = w ++ b' ' ∷ join x xs

scan-word :
    (room : ℕ) (acc w rest : List ℕ)
    → All (λ c. is_blank c ≡ false) w
    → scan_tokens room (some acc) (w ++ rest) ≡ scan_tokens room (some (acc ++ w)) rest
unfolding scan_tokens
scan-word room acc [] rest h = ap (λ a. scan_tokens room (some a) rest) (sym (append-nil acc))
scan-word room acc (c ∷ w) rest (hc, h) =
    rw (hc, scan_tokens)
      (scan-word room (acc ++ c ∷ []) w rest h
        ∙ ap (λ a. scan_tokens room (some a) rest) (append_assoc acc (c ∷ []) w))

-- A word at the start takes one of the places.
scan-start :
    (room : ℕ) (w rest : List ℕ)
    → IsWord w
    → scan_tokens (suc room) none (w ++ rest) ≡ scan_tokens room (some w) rest
unfolding scan_tokens
scan-start room [] rest h = absurd (omega (arith, h.0))
scan-start room (c ∷ w) rest (_, (hc, h)) = rw (hc, scan_tokens) (scan-word room (c ∷ []) w rest h)

scan-join :
    (room : ℕ) (w : List ℕ) (ws : List (List ℕ))
    → All IsWord (w ∷ ws)
    → length ws < room
    → scan_tokens room none (join w ws) ≡ some (w ∷ ws)
unfolding scan_tokens join
scan-join zero w ws h small = absurd (omega arith)
scan-join (suc room) w [] (hw, _) small =
    ap (scan_tokens (suc room) none) (sym (append-nil w)) ∙ scan-start room w [] hw
scan-join (suc room) w (x ∷ xs) (hw, h) small =
    scan-start room w (b' ' ∷ join x xs) hw ∙ ap (and_then w) (scan-join room x xs h (omega arith))

-- Tokens, not more than there is room for, that are printed with one blank between each two are
-- read back as these tokens.
pub cmd_tokenize-join :
    (w : List ℕ) (ws : List (List ℕ)) (most : ℕ)
    → All IsWord (w ∷ ws)
    → length ws < most
    → cmd_tokenize (join w ws) most ≡ some (w ∷ ws)
unfolding cmd_tokenize
cmd_tokenize-join w ws most h small = scan-join most w ws h small

-- What the tokenizer has read of the current token is a token.
IsStarted : Option (List ℕ) → Type 0
IsStarted none = Unit
IsStarted (some word) = IsWord word

-- The words that may still come, the current one included
places : ℕ → Option (List ℕ) → ℕ
places room none = room
places room (some word) = suc room

pub some-inj {ℓ} : {A : Type ℓ} {a b : A} → some a ≡ some b → a ≡ b
some-inj e = cc

and_then-IsWord :
    (w : List ℕ) (o : Option (List (List ℕ))) (n : ℕ) (ws : List (List ℕ))
    → IsWord w
    → ((vs : List (List ℕ)) → o ≡ some vs → All IsWord vs × (length vs ≤ n))
    → and_then w o ≡ some ws
    → All IsWord ws × (length ws ≤ suc n)
and_then-IsWord w none n ws hw h e = absurd (cc)
and_then-IsWord w (some vs) n ws hw h e =
    let found = h vs refl in
    subst (λ us. All IsWord us × (length us ≤ suc n)) (some-inj e)
      ((hw, found.0), omega (arith, found.1))

IsWord-snoc : (w : List ℕ) (c : ℕ) → IsWord w → is_blank c ≡ false → IsWord (w ++ c ∷ [])
IsWord-snoc w c h hc = (
  omega (arith, length-append w (c ∷ []), h.0),
  All-append (λ c. is_blank c ≡ false) w (c ∷ []) h.1 (hc, tt),
)

scan-IsWord :
    (room : ℕ) (st : Option (List ℕ)) (line : List ℕ) (ws : List (List ℕ))
    → IsStarted st
    → scan_tokens room st line ≡ some ws
    → All IsWord ws × (length ws ≤ places room st)
unfolding scan_tokens IsStarted places
scan-IsWord room none [] ws h e =
    subst (λ us. All IsWord us × (length us ≤ room)) (some-inj e) (tt, omega arith)
scan-IsWord room (some word) [] ws h e =
    subst (λ us. All IsWord us × (length us ≤ suc room)) (some-inj e) ((h, tt), omega arith)
scan-IsWord room none (c ∷ line) ws h e = elim (Bool-cases (is_blank c)) [
  | inl b ↦ scan-IsWord room none line ws h (sym (rw (b, scan_tokens) refl) ∙ e)
  | inr b ↦
      from room (λ left f. scan-IsWord left (some (c ∷ [])) line ws (omega arith, (b, tt)) f)
        (sym (rw (b, scan_tokens) refl) ∙ e)
]
  where
    from :
        (r : ℕ)
        → ((left : ℕ)
            → scan_tokens left (some (c ∷ [])) line ≡ some ws
            → All IsWord ws × (length ws ≤ suc left))
        → elim r [ zero ↦ none | suc left ↦ scan_tokens left (some (c ∷ [])) line ] ≡ some ws
        → All IsWord ws × (length ws ≤ r)
    from zero h e = absurd (cc)
    from (suc left) h e = h left e
scan-IsWord room (some word) (c ∷ line) ws h e = elim (Bool-cases (is_blank c)) [
  | inl b ↦
      and_then-IsWord word (scan_tokens room none line) room ws h
        (λ vs f. scan-IsWord room none line vs tt f) (sym (rw (b, scan_tokens) refl) ∙ e)
  | inr b ↦
      scan-IsWord room (some (word ++ c ∷ [])) line ws (IsWord-snoc word c h b)
        (sym (rw (b, scan_tokens) refl) ∙ e)
]

-- What the tokenizer returns are tokens, and not more than there is room for.
pub cmd_tokenize-IsWord :
    (line : List ℕ) (most : ℕ) (ws : List (List ℕ))
    → cmd_tokenize line most ≡ some ws
    → All IsWord ws × (length ws ≤ most)
unfolding cmd_tokenize IsStarted places
cmd_tokenize-IsWord line most ws e = scan-IsWord most none line ws tt e

-- The bytes of the tokens, each with one blank
pub width : List (List ℕ) → ℕ
width [] = 0
width (w ∷ ws) = suc (length w + width ws)

pub width-join : (w : List ℕ) (ws : List (List ℕ)) → suc (length (join w ws)) ≡ width (w ∷ ws)
unfolding join width
width-join w [] = omega arith
width-join w (x ∷ xs) = omega (arith, width-join x xs, length-append w (b' ' ∷ join x xs))

started : Option (List ℕ) → ℕ
started none = 0
started (some word) = length word

and_then-width :
    (w : List ℕ) (o : Option (List (List ℕ))) (n : ℕ) (ws : List (List ℕ))
    → ((vs : List (List ℕ)) → o ≡ some vs → width vs ≤ n)
    → and_then w o ≡ some ws
    → width ws ≤ suc (length w + n)
unfolding width
and_then-width w none n ws h e = absurd (cc)
and_then-width w (some vs) n ws h e =
    subst (λ us. width us ≤ suc (length w + n)) (some-inj e) (omega (arith, h vs refl))

scan-width :
    (room : ℕ) (st : Option (List ℕ)) (line : List ℕ) (ws : List (List ℕ))
    → scan_tokens room st line ≡ some ws
    → width ws ≤ suc (length line + started st)
unfolding scan_tokens width started
scan-width room none [] ws e = subst (λ us. width us ≤ 1) (some-inj e) (omega arith)
scan-width room (some word) [] ws e =
    subst (λ us. width us ≤ suc (0 + length word)) (some-inj e) (omega arith)
scan-width room none (c ∷ line) ws e = elim (Bool-cases (is_blank c)) [
  | inl b ↦ omega (arith, scan-width room none line ws (sym (rw (b, scan_tokens) refl) ∙ e))
  | inr b ↦
      from room (λ left f. scan-width left (some (c ∷ [])) line ws f)
        (sym (rw (b, scan_tokens) refl) ∙ e)
]
  where
    from :
        (r : ℕ)
        → ((left : ℕ)
            → scan_tokens left (some (c ∷ [])) line ≡ some ws
            → width ws ≤ suc (length line + 1))
        → elim r [ zero ↦ none | suc left ↦ scan_tokens left (some (c ∷ [])) line ] ≡ some ws
        → width ws ≤ suc (suc (length line) + 0)
    from zero h e = absurd (cc)
    from (suc left) h e = omega (arith, h left e)
scan-width room (some word) (c ∷ line) ws e = elim (Bool-cases (is_blank c)) [
  | inl b ↦ omega (
    arith,
    and_then-width word (scan_tokens room none line) (suc (length line)) ws
        (λ vs f. omega (arith, scan-width room none line vs f))
        (sym (rw (b, scan_tokens) refl) ∙ e),
  )
  | inr b ↦ omega (
    arith,
    length-append word (c ∷ []),
    scan-width room (some (word ++ c ∷ [])) line ws (sym (rw (b, scan_tokens) refl) ∙ e),
  )
]

-- The tokens of a line are no longer than the line.
pub cmd_tokenize-width :
    (line : List ℕ) (most : ℕ) (ws : List (List ℕ))
    → cmd_tokenize line most ≡ some ws
    → width ws ≤ suc (length line)
unfolding cmd_tokenize started
cmd_tokenize-width line most ws e = omega (arith, scan-width most none line ws e)
