-- ===== src/Matroska/Read.antt =====
-- Written elements are read back as the children of their parent, up to what is cut off or malformed.
use den_remux.Prelude.{ℕ, zero, suc, ◌+◌, ◌-◌, ◌*◌, ◌^◌, ◌≤◌, ◌<◌, ◌≡◌, refl, arith, All, map}
use den_remux.Prelude.{List, [], ◌∷◌, ◌++◌, Option, none, some, length, take, drop, ap, ◌∙◌, sym}
use den_remux.Prelude.{◌>>=◌, length-append, drop-append, take-append, append_assoc, drop-drop, ltb}
use den_remux.Prelude.{if◌then◌else◌}
use den_remux.Prelude.{◌%◌}
use den_remux.Bytes.{checked_add, be_bytes, length-be_bytes}
use den_remux.Matroska.Element.{
  Header, header, child_body, child_at, next_child, children_from, children,
}
use den_remux.Matroska.Encode.{header_bytes, size_bytes, IsId, FitsSize, header-header_bytes}
use den_remux.Matroska.Walk.{children_from_zero, children_from_stop, children_from_step}

-- An element to be written: its id with the id's width, the width of its size, and its payload.
pub record Element : Type 0 where
  pub id_width : ℕ
  pub id : ℕ
  pub size_width : ℕ
  pub payload : List ℕ

abbrev pub IsElement : Element → Type 0
IsElement e =
    IsId e.id_width e.id
    × FitsSize e.size_width (length e.payload)
    × (length e.payload + 1 < 2 ^ (7 * (e.size_width + 1)))

unfoldable pub element_bytes : Element → List ℕ
element_bytes e = header_bytes e.id_width e.id e.size_width (length e.payload) ++ e.payload

unfoldable pub encode : List Element → List ℕ
encode [] = []
encode (e ∷ es) = element_bytes e ++ encode es

abbrev pub content : Element → ℕ × List ℕ
content e = (e.id, e.payload)

-- What ends the walk: bytes that are no header, an unknown size, or a size that passes the end.
abbrev pub CutsOff : Option Header → ℕ → Type 0
CutsOff none n = Unit {0}
CutsOff (some (id, none, hl)) n = Unit {0}
CutsOff (some (id, some size, hl)) n = n < hl + size

length-header_bytes : (i id k v : ℕ) → length (header_bytes i id k v) ≡ i + k + 2
unfolding size_bytes
length-header_bytes i id k v = omega (
  arith,
  length-append (be_bytes (suc i) id) (size_bytes k v),
  length-be_bytes (suc i) id,
  length-be_bytes k (v % 256 ^ k),
)

pub length-element_bytes :
    (e : Element) → length (element_bytes e) ≡ e.id_width + e.size_width + 2 + length e.payload
unfolding element_bytes
length-element_bytes e = omega (
  arith,
  length-append (header_bytes e.id_width e.id e.size_width (length e.payload)) e.payload,
  length-header_bytes e.id_width e.id e.size_width (length e.payload),
)

pub length-encode :
    (e : Element) (es : List Element)
    → length (encode (e ∷ es))
      ≡ e.id_width + e.size_width + 2 + length e.payload + length (encode es)
unfolding encode
length-encode e es =
    omega (arith, length-append (element_bytes e) (encode es), length-element_bytes e)

pub length-encode_nil : length (encode []) ≡ 0
unfolding encode
length-encode_nil = refl

pub drop_within {ℓ} :
    {A : Type ℓ} (pre h x : List A) (n : ℕ)
    → length h ≡ n
    → drop (length pre + n) (pre ++ (h ++ x)) ≡ x
drop_within pre h x n e =
    sym (drop-drop (length pre) n (pre ++ (h ++ x)))
    ∙ ap (drop n) (drop-append pre (h ++ x))
    ∙ rw (← e) (drop-append h x)

module _ (pre more : List ℕ) (e : Element) (ok_e : IsElement e) where
  abbrev pub whole : List ℕ
  whole = pre ++ (element_bytes e ++ more)

  abbrev pub hl : ℕ
  hl = e.id_width + e.size_width + 2

  pub length-whole : length whole ≡ length pre + hl + length e.payload + length more
  length-whole = omega (
    arith,
    length-append pre (element_bytes e ++ more),
    length-append (element_bytes e) more,
    length-element_bytes e,
  )

  pub header-whole : header (drop (length pre) whole) ≡ some (e.id, some (length e.payload), hl)
  unfolding element_bytes
  header-whole =
      rw
        (
          drop-append pre (element_bytes e ++ more),
          append_assoc (header_bytes e.id_width e.id e.size_width (length e.payload)) e.payload
              more,
        )
        (header-header_bytes e.id_width e.id e.size_width (length e.payload) (e.payload ++ more)
          ok_e.0 ok_e.1 ok_e.2)

  pub payload-whole :
      (end : ℕ)
      → end ≡ length pre + hl + length e.payload
      → take (end - (length pre + hl)) (drop (length pre + hl) whole) ≡ e.payload
  unfolding element_bytes
  payload-whole end h =
      rw
        (
          append_assoc (header_bytes e.id_width e.id e.size_width (length e.payload)) e.payload
              more,
          drop_within pre (header_bytes e.id_width e.id e.size_width (length e.payload))
              (e.payload ++ more) hl
              (length-header_bytes e.id_width e.id e.size_width (length e.payload)),
        )
        (ap (λ n. take n (e.payload ++ more)) {x = end - (length pre + hl)} {y = length e.payload}
            (omega arith)
          ∙ take-append e.payload more)

  end_of_element : ℕ
  end_of_element = length pre + hl + length e.payload

  child_body-whole :
      child_body whole e.id (length pre + hl) (length pre + hl + length e.payload)
      ≡ some ((e.id, e.payload), length pre + length (element_bytes e))
  unfolding child_body
  child_body-whole =
      rw (payload-whole (length pre + hl + length e.payload) refl)
        (ground (arith, length-whole, length-element_bytes e))

  pub checked_add-whole :
      length whole < 2 ^ 64
      → checked_add (length pre + hl) (length e.payload) ≡ some (length pre + hl + length e.payload)
  unfolding checked_add
  checked_add-whole small = ground (arith, length-whole)

  next_child-element :
      length whole < 2 ^ 64
      → next_child whole (length pre)
        ≡ some ((e.id, e.payload), length pre + length (element_bytes e))
  unfolding next_child child_at
  next_child-element small =
      rw (header-whole, checked_add-whole small, child_body-whole) (ground (arith, length-whole))

next_child-cut :
    (pre junk : List ℕ)
    → CutsOff (header junk) (length junk)
    → next_child (pre ++ junk) (length pre) ≡ none
unfolding next_child
next_child-cut pre junk h = rw (drop-append pre junk) (cut (header junk) h)
  where
    cut_child :
        (hdr : Header)
        → CutsOff (some hdr) (length junk)
        → child_at (pre ++ junk) (length pre) hdr ≡ none
    cut_child (id, none, hl) h = unfold child_at in refl
    cut_child (id, some size, hl) h =
        unfold child_at child_body checked_add in ground (arith, length-append pre junk)

    cut :
        (o : Option Header)
        → CutsOff o (length junk)
        → (if ltb (length (pre ++ junk)) (length pre)
            then none
            else o >>= child_at (pre ++ junk) (length pre))
          ≡ none
    cut none h = ground arith
    cut (some hdr) h = rw (cut_child hdr h) (ground arith)

children_from-encode :
    (es : List Element) (pre junk : List ℕ) (f : ℕ)
    → All IsElement es
    → CutsOff (header junk) (length junk)
    → length (pre ++ (encode es ++ junk)) < 2 ^ 64
    → length (encode es ++ junk) ≤ f
    → children_from f (pre ++ (encode es ++ junk)) (length pre) ≡ map content es
unfolding encode
children_from-encode [] pre junk zero h c s k = children_from_zero (pre ++ junk) (length pre)
children_from-encode [] pre junk (suc f) h c s k =
    children_from_stop f (pre ++ junk) (length pre) (next_child-cut pre junk c)
children_from-encode (e ∷ es) pre junk zero h c s k = absurd (
    omega (
      arith,
      length-append (element_bytes e ++ encode es) junk,
      length-append (element_bytes e) (encode es),
      length-element_bytes e,
    ))
children_from-encode (e ∷ es) pre junk (suc f) h c s k =
    let eb : List ℕ = element_bytes e in
    let more : List ℕ = encode es ++ junk in
    let regroup : (eb ++ encode es) ++ junk ≡ eb ++ more = append_assoc eb (encode es) junk in
    let small : length (pre ++ (eb ++ more)) < 2 ^ 64 = rw (← regroup) s in
    let over : (pre ++ eb) ++ more ≡ pre ++ (eb ++ more) = append_assoc pre eb more in
    let rest =
      children_from-encode es (pre ++ eb) junk f h.1 c (rw over small)
        (omega (arith, ap length regroup, length-append eb more, length-element_bytes e)) in
    rw
      (
        regroup,
        children_from_step f (pre ++ (eb ++ more)) (length pre) (content e) (length pre + length eb)
            (next_child-element pre more e h.0 small),
      )
      (ap (λ cs. content e ∷ cs) (rw (← length-append pre eb, ← over) rest))

-- Elements written one after the other, each with an id and a size that its widths hold, are read
-- back as the children of the payload: all of them, in order, each with its id and its payload. What
-- stands behind them and is no header, has the unknown size, or has a size past the end, adds no
-- child. The payload is shorter than 2^64 bytes.
pub children-encode :
    (es : List Element) (junk : List ℕ)
    → All IsElement es
    → CutsOff (header junk) (length junk)
    → length (encode es ++ junk) < 2 ^ 64
    → children (encode es ++ junk) ≡ map content es
unfolding children
children-encode es junk h c s =
    children_from-encode es [] junk (length (encode es ++ junk)) h c s (omega arith)
