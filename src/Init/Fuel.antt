-- ===== src/Init/Fuel.antt =====
-- The loops of `add_dovi_record` end on any bytes: none of them runs out of fuel.
use den_remux.Prelude.{ℕ, zero, suc, ◌+◌, ◌≤◌, ◌≡◌, ◌≢◌, refl, ap, arith, Bool, true, false}
use den_remux.Prelude.{
  List, [], ◌∷◌, Option, none, some, Result, ok, err, ◌>>?◌, ltb, leb, length, drop, if◌then◌else◌,
}
use den_remux.Text.{same, codes}
use den_remux.Init.{
  Refusal, stuck, BoxAt, sized_box, box_at, has_offsets, offsets_loop, no_chunk_offsets,
  record_loop, is_hevc, patch_entry, stsd_loop, patch_stsd, walk_loop, walk_boxes, dovi_path,
  dovi_record, add_dovi_record, entry_header, no_entry,
}

-- A loop that ran out of fuel.
abbrev pub Ends {ℓ} : {A : Type ℓ} → Result Refusal A → Type ℓ
Ends r = r ≢ err stuck

box_at-Ends : (b : List ℕ) → Ends (box_at b)
unfolding box_at sized_box
box_at-Ends b h = ground arith

-- A box that is read takes eight bytes at least.
box_at_size : (b : List ℕ) (x : BoxAt) → box_at b ≡ ok x → 8 ≤ x.2
unfolding box_at sized_box
box_at_size b (kind, body, size) h = ground arith

bind-Ends {ℓ κ} :
    {A : Type ℓ} {B : Type κ} (r : Result Refusal A) (f : A → Result Refusal B)
    → Ends r
    → ((a : A) → r ≡ ok a → Ends (f a))
    → Ends (r >>? f)
bind-Ends (err why) f h k e = h (ap (λ x. x) (cc))
bind-Ends (ok a) f h k e = k a refl e

if-Ends {ℓ} :
    {A : Type ℓ} (b : Bool) (r s : Result Refusal A) → Ends r → Ends s → Ends (if b then r else s)
if-Ends true r s h k = h
if-Ends false r s h k = k

offsets_loop-Ends :
    (f : ℕ) (stbl : List ℕ) (at : ℕ) → length stbl ≤ at + f → Ends (offsets_loop f stbl at)
unfolding offsets_loop
offsets_loop-Ends zero stbl at h = λ e. ground (arith, e)
offsets_loop-Ends (suc f) stbl at h =
    if-Ends (leb (length stbl) at) _ _ (λ e. cc)
      (bind-Ends (box_at (drop at stbl)) _ (box_at-Ends (drop at stbl)) λ b e.
        let size = box_at_size (drop at stbl) b e in
        if-Ends (has_offsets b.0 b.1) _ _ (λ e'. cc)
          (offsets_loop-Ends f stbl (at + b.2) (omega arith)))

record_loop-Ends :
    (f : ℕ) (body : List ℕ) (child : ℕ) (found : Bool)
    → length body ≤ child + f
    → Ends (record_loop f body child found)
unfolding record_loop
record_loop-Ends zero body child found h = λ e. ground (arith, e)
record_loop-Ends (suc f) body child found h =
    if-Ends (leb (length body) child) _ _ (λ e. cc)
      (bind-Ends (box_at (drop child body)) _ (box_at-Ends (drop child body)) λ b e.
        let size = box_at_size (drop child body) b e in
        record_loop-Ends f body (child + b.2) _ (omega arith))

patch_entry-Ends : (body record_bytes : List ℕ) → Ends (patch_entry body record_bytes)
unfolding patch_entry
patch_entry-Ends body record_bytes =
    bind-Ends (record_loop (length body) body entry_header false) _
      (record_loop-Ends (length body) body entry_header false (omega arith)) (λ b e e'. cc)

stsd_loop-Ends :
    (record_bytes : List ℕ) (f : ℕ) (stsd : List ℕ) (at : ℕ) (out : List ℕ) (changed : Bool)
    → length stsd ≤ at + f
    → Ends (stsd_loop record_bytes f stsd at out changed)
unfolding stsd_loop
stsd_loop-Ends record_bytes zero stsd at out changed h = λ e. ground (arith, e)
stsd_loop-Ends record_bytes (suc f) stsd at out changed h =
    if-Ends (leb (length stsd) at) _ _ (λ e. cc)
      (bind-Ends (box_at (drop at stsd)) _ (box_at-Ends (drop at stsd)) λ b e.
        let size = box_at_size (drop at stsd) b e in
        if-Ends (is_hevc b.0) _ _
          (bind-Ends (patch_entry b.1 record_bytes) _ (patch_entry-Ends b.1 record_bytes)
            λ entry e'. stsd_loop-Ends record_bytes f stsd (at + b.2) _ _ (omega arith))
          (stsd_loop-Ends record_bytes f stsd (at + b.2) _ _ (omega arith)))

patch_stsd-Ends : (stsd record_bytes : List ℕ) → Ends (patch_stsd stsd record_bytes)
unfolding patch_stsd
patch_stsd-Ends stsd record_bytes =
    if-Ends (ltb (length stsd) 8) _ _ (λ e. cc)
      (stsd_loop-Ends record_bytes (length stsd) stsd 8 _ false (omega arith))

on_body {ℓ} :
    {A : Type ℓ} (r : Result Refusal A) (s : List ℕ → Result Refusal A) (o : Option (List ℕ))
    → Ends r
    → ((body : List ℕ) → Ends (s body))
    → Ends (elim o [ none ↦ r | some body ↦ s body ])
on_body r s none h k = h
on_body r s (some body) h k = k body

module _ (inner : List ℕ → Result Refusal (Option (List ℕ)))
    (ends : (body : List ℕ) → Ends (inner body)) where
  walk_loop-Ends :
      (kind : List ℕ) (f : ℕ) (bytes : List ℕ) (at : ℕ) (out : List ℕ) (changed : Bool)
      → length bytes ≤ at + f
      → Ends (walk_loop inner kind f bytes at out changed)
  unfolding walk_loop
  walk_loop-Ends kind zero bytes at out changed h = λ e. ground (arith, e)
  walk_loop-Ends kind (suc f) bytes at out changed h =
      if-Ends (leb (length bytes) at) _ _ (λ e. cc)
        (bind-Ends (box_at (drop at bytes)) _ (box_at-Ends (drop at bytes)) λ b e.
          let size = box_at_size (drop at bytes) b e in
          let next : (out' : List ℕ) (changed' : Bool)
              → Ends (walk_loop inner kind f bytes (at + b.2) out' changed') =
            λ out' changed'. walk_loop-Ends kind f bytes (at + b.2) out' changed' (omega arith) in
          if-Ends (same b.0 kind) _ _
            (bind-Ends (inner b.1) _ (ends b.1) λ o e'. on_body _ _ o (next _ _) (λ body. next _ _))
            (next _ _))

walk_boxes-Ends :
    (path : List (List ℕ)) (bytes record_bytes : List ℕ) → Ends (walk_boxes bytes path record_bytes)
unfolding walk_boxes no_chunk_offsets
walk_boxes-Ends [] bytes record_bytes = λ e. cc
walk_boxes-Ends (kind ∷ []) bytes record_bytes =
    walk_loop-Ends _ (λ body. patch_stsd-Ends body record_bytes) kind (length bytes) bytes 0 []
      false (omega arith)
walk_boxes-Ends (kind ∷ next ∷ path) bytes record_bytes =
    walk_loop-Ends _
      (λ body.
        bind-Ends _ _
          (if-Ends (same kind (codes "stbl")) _ _
            (offsets_loop-Ends (length body) body 0 (omega arith)) (λ e. cc))
          (λ _ e. walk_boxes-Ends (next ∷ path) body record_bytes))
      kind (length bytes) bytes 0 [] false (omega arith)

-- On any bytes, profile and level, `add_dovi_record` gives a result or one of the refusals of the
-- source: no loop in it runs out of fuel.
pub add_dovi_record-Ends :
    (init : List ℕ) (profile level : ℕ) → Ends (add_dovi_record init profile level)
unfolding add_dovi_record
add_dovi_record-Ends init profile level =
    bind-Ends (walk_boxes init dovi_path (dovi_record profile level)) _
      (walk_boxes-Ends dovi_path init (dovi_record profile level)) λ o e. last o
  where
    last : (o : Option (List ℕ)) → Ends (elim o [ none ↦ err no_entry | some out ↦ ok out ])
    last none = λ e. cc
    last (some out) = λ e. cc
