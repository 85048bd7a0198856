-- ===== src/Http/Response.antt =====
-- `media_response` of src/session.rs: the answer to a request for a segment, by the outcome of its
-- `Range`. The header values that never vary (content type, `accept-ranges`) are left out.
pub mod Resume
use den_remux.Prelude.{
  ℕ, ◌+◌, ◌-◌, ◌≤◌, ◌<◌, ◌≡◌, ap, ◌∙◌, sym, refl, true, false, Bool, arith, inl, inr,
}
use den_remux.Prelude.{
  List, [], ◌∷◌, ◌++◌, Option, none, some, Result, ok, err, length, take, drop, ◌⊎◌,
}
use den_remux.Prelude.{if◌then◌else◌, length-take, length-drop, subst}
use den_remux.Text.{Text, codes}
use den_remux.Text.Decimal.{print}
use den_remux.Http.Range.{Wanted, RangeHeaders, wanted_range, wanted_range_bounds}
use den_remux.Http.ContentRange.{print_range}
use den_remux.Http.Parts.{FileOps, Parts, IsSized, body, total, slice_parts, length-body}
use den_remux.Http.Parts.Slice.{slice_parts-body, slice_parts-total}

pub data Status : Type 0 where
  whole partial not_satisfiable : Status

pub record Reply : Type 0 where
  pub status : Status
  pub content_length : ℕ
  pub content_range : Option Text
  pub etag : Text
  pub max_age : ℕ
  pub sent : List ℕ

-- `busy()` is the fixed 503 for a file that would not seek.
pub data Response : Type 0 where
  answered : Reply → Response
  busy : Response

module _ (os : FileOps) where
  pub record Media : Type 0 where
    pub parts : Parts os
    pub etag : Text

  -- `if head { full("") } else { files_body(parts) }`
  unfoldable pub body_or_head : Bool → Parts os → List ℕ
  body_or_head head ps = if head then [] else body os ps

  unfoldable pub partial_reply : Text → ℕ → Bool → ℕ → ℕ → ℕ → Option (Parts os) → Response
  unfolding body_or_head
  partial_reply etag max_age head start end len none = busy
  partial_reply etag max_age head start end len (some parts) = answered (record {
    status = partial;
    content_length = total os parts;
    content_range = some (print_range start end len);
    etag = etag;
    max_age = max_age;
    sent = body_or_head head parts;
  })

  unfoldable pub reply_for : Media → Bool → ℕ → ℕ → Wanted → Response
  unfolding partial_reply body_or_head
  reply_for media head max_age len (err e) = answered (record {
    status = not_satisfiable;
    content_length = 0;
    content_range = some (codes "bytes */" ++ print len);
    etag = media.etag;
    max_age = max_age;
    sent = [];
  })
  reply_for media head max_age len (ok none) = answered (record {
    status = whole;
    content_length = total os media.parts;
    content_range = none;
    etag = media.etag;
    max_age = max_age;
    sent = body_or_head head media.parts;
  })
  reply_for media head max_age len (ok (some (start, end))) =
      partial_reply media.etag max_age head start end len (slice_parts os media.parts start end)

  -- `exp.saturating_sub(unix_now())` is the age for which the reply may be kept.
  unfoldable pub media_response : Media → Bool → ℕ → RangeHeaders → ℕ → Response
  unfolding reply_for
  media_response media head exp headers now =
      let len = total os media.parts in
      reply_for media head (exp - now) len (wanted_range headers media.etag len)

  -- What a reply to a GET says of the joined body `all`: it is sent whole; or a span of it, named by
  -- the `Content-Range`; or nothing.
  abbrev pub Describes : Reply → List ℕ → Type 0
  Describes r all =
      (r.status ≡ whole) × (r.content_range ≡ none) × (r.sent ≡ all)
      ⊎ ((start : ℕ) × (end : ℕ) × (r.status ≡ partial)
          × (r.content_range ≡ some (print_range start end (length all)))
          × (start ≤ end)
          × (end < length all)
          × (r.sent ≡ take (end - start + 1) (drop start all)))
      ⊎ (r.status ≡ not_satisfiable) × (r.sent ≡ [])

  answered-inj : {a b : Reply} → answered a ≡ answered b → a ≡ b
  answered-inj h = cc

  partial_reply-honest :
      (media : Media) (max_age start end : ℕ) (r : Reply) (o : Option (Parts os))
      → slice_parts os media.parts start end ≡ o
      → IsSized os media.parts
      → start ≤ end
      → end < total os media.parts
      → partial_reply media.etag max_age false start end (total os media.parts) o ≡ answered r
      → Describes r (body os media.parts) × (r.content_length ≡ length r.sent)
  unfolding partial_reply
  partial_reply-honest media max_age start end r none s sized h k e = cc
  partial_reply-honest media max_age start end r (some out) s sized h k e =
      let span = slice_parts-body os media.parts out start end sized s in
      let sum = slice_parts-total os media.parts out start end h k s in
      let all = length-body os media.parts sized in
      subst (λ q. Describes q (body os media.parts) × (q.content_length ≡ length q.sent))
        (answered-inj e)
        (
          inr (inl (start, end, refl, rw all refl, h, rw all k, span)),
          sum
              ∙ omega (
                arith,
                length-drop start (body os media.parts),
                length-take (end - start + 1) (drop start (body os media.parts)),
              )
              ∙ sym (ap length span),
        )

  reply_for-honest :
      (media : Media) (max_age : ℕ) (w : Wanted) (r : Reply)
      → ((start end : ℕ)
          → w ≡ ok (some (start, end))
          → (start ≤ end) × (end < total os media.parts))
      → IsSized os media.parts
      → reply_for media false max_age (total os media.parts) w ≡ answered r
      → Describes r (body os media.parts) × (r.content_length ≡ length r.sent)
  unfolding reply_for
  reply_for-honest media max_age (err e) r bounds sized h =
      subst (λ q. Describes q (body os media.parts) × (q.content_length ≡ length q.sent))
        (answered-inj h) (inr (inr (refl, refl)), refl)
  reply_for-honest media max_age (ok none) r bounds sized h =
      subst (λ q. Describes q (body os media.parts) × (q.content_length ≡ length q.sent))
        (answered-inj h) (inl (refl, refl, refl), sym (length-body os media.parts sized))
  reply_for-honest media max_age (ok (some (start, end))) r bounds sized h =
      let (le, lt) = bounds start end refl in
      partial_reply-honest media max_age start end r (slice_parts os media.parts start end) refl
        sized le lt h

  -- For a GET of a segment whose files hold the lengths read from them, whatever range the headers
  -- ask for: an answer other than `busy` is the joined body whole, with no `Content-Range`; or a
  -- non-empty span of it with status 206, which its `Content-Range` names; or nothing, with status
  -- 416. Its `Content-Length` is the number of bytes sent.
  pub media_response-honest :
      (media : Media) (exp now : ℕ) (headers : RangeHeaders) (r : Reply)
      → IsSized os media.parts
      → media_response media false exp headers now ≡ answered r
      → Describes r (body os media.parts) × (r.content_length ≡ length r.sent)
  unfolding media_response
  media_response-honest media exp now headers r sized h =
      reply_for-honest media (exp - now) (wanted_range headers media.etag (total os media.parts)) r
        (λ start end e. wanted_range_bounds headers media.etag (total os media.parts) start end e)
        sized h
