-- ===== src/Notify/Lines.antt =====
-- The text of a line of components/notify/notify.c.
use hill_grov.Base.{
  List, [], ap, arith, if_lem, leb, length, length-append, length-take, subst, sym, take, take_all,
  take_less, ℕ, ◌++◌, ◌-◌, ◌<◌, ◌∙◌, ◌∷◌, ◌≡◌, ◌≤◌,
}
use hill_grov.Notify.{NtfType, ended, line_of, ntf_line_max, text_of}

ended_lem :
    (text : List ℕ)
    → ended (take (ntf_line_max - 1) text) ≡ take (ntf_line_max - 2) text ++ b'\n' ∷ []
unfolding ended
ended_lem text =
    let n = length-take (ntf_line_max - 1) text in
    if_lem (λ r. r ≡ take (ntf_line_max - 2) text ++ b'\n' ∷ [])
      (leb (ntf_line_max - 1) (length (take (ntf_line_max - 1) text))) _ _
      (λ c.
        ap (λ s. s ++ b'\n' ∷ [])
          (take_less (ntf_line_max - 2) (ntf_line_max - 1) text (omega arith)))
      (λ c.
        let short : length text ≤ ntf_line_max - 2 = ground (arith, c, n) in
        ap (λ s. s ++ b'\n' ∷ [])
          (take_all (ntf_line_max - 1) text (omega (arith, short))
            ∙ sym (take_all (ntf_line_max - 2) text short)))

-- A line is the first 126 bytes of its text, NOTIFY, the type, the node and the content, and the
-- end of the line; with its terminator it fits the buffer of 128 bytes.
pub line_of-fits :
    (t : NtfType) (node_id : ℕ) (content : List ℕ)
    → (line_of t node_id content
        ≡ take (ntf_line_max - 2) (text_of t node_id content) ++ b'\n' ∷ [])
      × (length (line_of t node_id content) < ntf_line_max)
unfolding line_of
line_of-fits t node_id content =
    let text : List ℕ = text_of t node_id content in
    let e = ended_lem text in
    (
      e,
      subst (λ (l : List ℕ). length l < ntf_line_max) (sym e)
          (omega (
            arith,
            length-append (take (ntf_line_max - 2) text) (b'\n' ∷ []),
            length-take (ntf_line_max - 2) text,
          )),
    )
