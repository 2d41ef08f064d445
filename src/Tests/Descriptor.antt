-- ===== src/Tests/Descriptor.antt =====
-- The cut of a descriptor in deadpool/remote/server.py at concrete inputs: a text of six bytes, and headers
-- whose bytes are the texts of one field.
use Prim.Native.String.{len}
use deadpool.Base.{Bool, ℕ, zero, suc, ◌≤◌, ◌≡◌, ◌⊎◌, refl, true, String, List, [], ◌∷◌, arith}
use deadpool.Result.{ok}
use deadpool.Config.Limits.{Limits}
use deadpool.Dict.{insert, text_eq}
use deadpool.Protocol.Sorting.{sort_fields, insert_field}
use deadpool.Protocol.Json.{Json, str, obj, Fields, end, field, validate_json}
use deadpool.Broker.Descriptor.{
  truncate_utf8, validate_message_control, fit_terminal_descriptor, longest,
  terminal_descriptor_fits,
}
use deadpool.Broker.Descriptor.Truncation.{truncate_utf8-le}
use deadpool.Broker.Descriptor.Longest.{
  fit_terminal_descriptor_lem, longest-IsBest, IsBest, fits_at,
}
use deadpool.Tests.Protocol.{limits}

truncate_utf8-le_example :
    (len (truncate_utf8 "a long enough text" 16) ≤ 16)
    × (len "a long enough text" ≤ 16 → truncate_utf8 "a long enough text" 16 ≡ "a long enough text")
truncate_utf8-le_example = truncate_utf8-le "a long enough text" 16

truncated : truncate_utf8 "a long enough text" 16 ≡ "a ...[truncated]"
unfolding truncate_utf8
truncated = refl

abbrev no_bytes : Json → List ℕ
no_bytes v = []

abbrev text_of : Json → String
text_of (str s) = s
text_of _ = ""

abbrev descriptor : Fields
descriptor = field "message" (str "failed") (field "secret" (str "x") end)

fit_terminal_descriptor_lem_example :
    (fit_terminal_descriptor no_bytes text_of limits "a:1" descriptor 3 ≡ end)
    ⊎ ((bytes : List ℕ) × (validate_message_control no_bytes text_of limits
            (field "request_id"
              (str "a:1")
              (fit_terminal_descriptor no_bytes text_of limits "a:1" descriptor 3))
            3
          ≡ ok bytes))
fit_terminal_descriptor_lem_example =
    fit_terminal_descriptor_lem no_bytes text_of limits "a:1" 3 descriptor

-- headers, with their fields sorted, as long as the text of an outcome's message, of which a frame takes three bytes
abbrev ones : ℕ → List ℕ
ones zero = []
ones (suc n) = 1 ∷ ones n

abbrev message_bytes : Json → List ℕ
message_bytes (obj (field _ (obj (field _ (str s) _)) _)) = ones (len s)
message_bytes _ = []

abbrev narrow : Limits
narrow = record limits { max_control_bytes = 3 }

abbrev narrow_fits : ℕ → Bool
narrow_fits = fits_at message_bytes text_of narrow "a:1" 3 [] "message" "failed"

three_fit : (i : ℕ) → i ≤ 3 → narrow_fits i ≡ true
unfolding terminal_descriptor_fits insert truncate_utf8 validate_json sort_fields insert_field
    text_eq
three_fit zero h = refl
three_fit (suc zero) h = refl
three_fit (suc (suc zero)) h = refl
three_fit (suc (suc (suc zero))) h = refl
three_fit (suc (suc (suc (suc n)))) h = ground (arith, h)

no_more_fit : (j : ℕ) → j ≤ 6 → narrow_fits j ≡ true → j ≤ 3
unfolding terminal_descriptor_fits insert truncate_utf8 validate_json sort_fields insert_field
    text_eq
no_more_fit zero h f = omega arith
no_more_fit (suc zero) h f = omega arith
no_more_fit (suc (suc zero)) h f = omega arith
no_more_fit (suc (suc (suc zero))) h f = omega arith
no_more_fit (suc (suc (suc (suc zero)))) h f = cc
no_more_fit (suc (suc (suc (suc (suc zero))))) h f = cc
no_more_fit (suc (suc (suc (suc (suc (suc zero)))))) h f = cc
no_more_fit (suc (suc (suc (suc (suc (suc (suc n))))))) h f = omega (arith, h)

longest-IsBest_example :
    IsBest message_bytes text_of narrow "a:1" 3 [] "message" "failed"
      (longest message_bytes text_of narrow "a:1" 3 [] "message" "failed" 7 0 7 "")
longest-IsBest_example =
    longest-IsBest message_bytes text_of narrow "a:1" 3 [] "message" "failed"
      (λ i j le len_le f. three_fit i (omega (arith, le, no_more_fit j len_le f)))
      (three_fit 0 (omega arith))
