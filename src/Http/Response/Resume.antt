-- ===== src/Http/Response/Resume.antt =====
-- A player whose connection broke asks for the rest of a segment, naming the tag of what it holds.
use den_remux.Prelude.{ℕ, ◌+◌, ◌-◌, ◌<◌, ◌^◌, ◌≡◌, ap, ◌∙◌, refl, false, arith}
use den_remux.Prelude.{[], ◌++◌, some, length, take, drop, length-drop, take-all}
use den_remux.Prelude.{take-append-drop, List}
use den_remux.Text.Decimal.{print, IsVisible}
use den_remux.Http.ContentRange.{print_range}
use den_remux.Http.Range.Print.{asks, stale_own, wanted_range-from}
use den_remux.Http.Parts.{FileOps, IsSized, body, total, length-body}
use den_remux.Http.Parts.Slice.{CanSeek, slice_parts-body, slice_parts-some}
use den_remux.Http.Response.{Media, Reply, answered, partial, media_response}

-- The rest of the body, behind what is already held.
rest_of_body {ℓ} :
    {A : Type ℓ} (all : List A) (n len : ℕ)
    → length all ≡ len
    → n < len
    → take n all ++ take (len - 1 - n + 1) (drop n all) ≡ all
rest_of_body all n len e h =
    ap (λ t. take n all ++ t)
      (take-all (len - 1 - n + 1) (drop n all) (omega (arith, length-drop n all)))
    ∙ take-append-drop n all

module _ (os : FileOps) where
  -- A download that broke off is completed. Where every file holds its length and can be sought
  -- within its bytes, the tag is visible ASCII and the body is shorter than 2^64: once the first `n`
  -- bytes are there, `n` less than the length, a GET with `Range: bytes=n-` and an `If-Range` that
  -- names the tag is answered with status 206, and what is sent, behind those `n` bytes, is the
  -- whole body.
  pub media_response-resume :
      (media : Media os) (n exp now : ℕ)
      → CanSeek os
      → IsSized os media.parts
      → IsVisible media.etag
      → n < total os media.parts
      → total os media.parts < 2 ^ 64
      → (r : Reply) × (media_response os media false exp
            (asks (print n) [] (some (some media.etag)))
            now
          ≡ answered r)
        × (r.status ≡ partial)
        × (take n (body os media.parts) ++ r.sent ≡ body os media.parts)
  unfolding media_response
  media_response-resume media n exp now can sized clean h k =
      let len = total os media.parts in
      let (out, e) = slice_parts-some os media.parts n (len - 1) can sized in
      let w =
        wanted_range-from n len (some (some media.etag)) media.etag (stale_own media.etag clean) h
          k in
      (
        record {
          status = partial;
          content_length = total os out;
          content_range = some (print_range n (len - 1) len);
          etag = media.etag;
          max_age = exp - now;
          sent = body os out;
        },
        rw (w, e) refl,
        refl,
        ap (λ t. take n (body os media.parts) ++ t)
              (slice_parts-body os media.parts out n (len - 1) sized e)
            ∙ rest_of_body (body os media.parts) n len (length-body os media.parts sized) h,
      )
