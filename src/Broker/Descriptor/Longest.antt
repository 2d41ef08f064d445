-- ===== src/Broker/Descriptor/Longest.antt =====
-- What `_fit_terminal_descriptor` of deadpool/remote/server.py gives: a descriptor that fits, or none, and
-- of a text that it cuts the longest prefix that fits.
use Prim.Native.String.{len}
use deadpool.Base.{
  ℕ, zero, suc, ◌+◌, ◌-◌, ◌/◌, ◌≤◌, ◌<◌, ◌≡◌, ◌⊎◌, inl, inr, refl, Bool, true, false, String, List,
  [], ◌∷◌, arith, ltb, if◌then◌else◌, if-case, option-case, ap, sym,
}
use deadpool.Dict.{Dict, lookup, insert, text_key}
use deadpool.Dict.Laws.{insert-insert}
use deadpool.Result.{Result, ok, err}
use deadpool.Config.Limits.{Limits}
use deadpool.Protocol.Json.{Json, str, Fields, end, field}
use deadpool.Protocol.Receive.{dict_of}
use deadpool.Broker.Descriptor.Truncation.{truncate_utf8-zero}
use deadpool.Broker.Descriptor.{
  truncate_utf8, terminal_descriptor_fits, longest, cut, fit_bounded, bounded_fields,
  fit_terminal_descriptor, fields_of, kept_fields, cut_fields, validate_message_control, is_ok,
}

-- What holds of both cases of a test holds of its elimination.
bool-case {ℓ κ} :
    {A : Type ℓ} (P : A → Type κ) (b : Bool) {x y : A}
    → (b ≡ true → P x)
    → (b ≡ false → P y)
    → P (elim b [ true ↦ x | false ↦ y ])
bool-case P true f g = f refl
bool-case P false f g = g refl

is_ok-ok {ℓ} : {A : Type ℓ} (r : Result A) → is_ok r ≡ true → (v : A) × (r ≡ ok v)
is_ok-ok (ok v) h = (v, refl)
is_ok-ok (err x) h = cc

module _ (dumps : Json → List ℕ) (text : Json → String) (l : Limits) (request_id : String)
    (size : ℕ) where
  -- A descriptor fits, with the request's identifier, into the first frame of an outcome.
  abbrev Fits : Dict String String → Type 0
  Fits descriptor = terminal_descriptor_fits dumps text l request_id descriptor size ≡ true

  -- The field's text that the search ends with fits where the one that it started from did.
  longest-Fits :
      (bounded : Dict String String) (name original : String) (fuel low high : ℕ) (best : String)
      → Fits (insert name best bounded)
      → Fits (
          insert name
            (longest dumps text l request_id size bounded name original fuel low high best)
            bounded)
  unfolding longest
  longest-Fits bounded name original zero low high best h = h
  longest-Fits bounded name original (suc fuel) low high best h =
      let candidate = truncate_utf8 original ((low + high - 1) / 2) in
      bool-case (λ (s : String). Fits (insert name s bounded)) (ltb low high)
        (λ _. longest-Fits bounded name original fuel _ _ _ (kept candidate)) (λ _. h)
    where
      kept :
          (candidate : String)
          → let fits =
              terminal_descriptor_fits dumps text l request_id
                (insert name candidate bounded)
                size in
            Fits (insert name (if fits then candidate else best) bounded)
      kept candidate =
          if-case (λ (s : String). Fits (insert name s bounded))
            (terminal_descriptor_fits dumps text l request_id (insert name candidate bounded) size)
            (λ fits. fits) (λ _. h)

  abbrev EmptyOrFits : Dict String String → Type 0
  EmptyOrFits d = (d ≡ []) ⊎ Fits d

  cut-Fits :
      (names : List String) (bounded : Dict String String)
      → EmptyOrFits (cut dumps text l request_id size names bounded)
  unfolding cut
  cut-Fits [] bounded = inl refl
  cut-Fits (name ∷ names) bounded =
      let emptied = insert name "" bounded in
      option-case EmptyOrFits (lookup name bounded) (λ _. cut-Fits names bounded)
        (λ original _.
          if-case EmptyOrFits (terminal_descriptor_fits dumps text l request_id emptied size)
            (λ h. inr (
              longest-Fits emptied name original (suc (len original)) 0 (suc (len original)) ""
                (rw (insert-insert name "" "" bounded) h)))
            (λ _. cut-Fits names emptied))

  fit_bounded-Fits :
      (bounded : Dict String String)
      → EmptyOrFits (fit_bounded dumps text l request_id size bounded)
  unfolding fit_bounded
  fit_bounded-Fits bounded =
      if-case EmptyOrFits (terminal_descriptor_fits dumps text l request_id bounded size) inr
        (λ _. cut-Fits cut_fields bounded)

  -- Whatever a worker says of an outcome, the descriptor that the broker keeps of it goes with the
  -- request's identifier into the first frame of a message with the outcome's payload, or is empty.
  pub fit_terminal_descriptor_lem :
      (descriptor : Fields)
      → let fitted = fit_terminal_descriptor dumps text l request_id descriptor size in
        (fitted ≡ end)
        ⊎ ((bytes : List ℕ) × (validate_message_control dumps text l
                (field "request_id" (str request_id) fitted)
                size
              ≡ ok bytes))
  unfolding fit_terminal_descriptor terminal_descriptor_fits
  fit_terminal_descriptor_lem descriptor =
      elim (fit_bounded-Fits (bounded_fields dumps text l kept_fields (dict_of descriptor))) [
        | inl empty ↦ inl (ap fields_of empty)
        | inr fits ↦ inr (is_ok-ok _ fits)
      ]

  module _ (bounded : Dict String String) (name original : String) where
    -- The field's text cut to a length fits.
    abbrev pub fits_at : ℕ → Bool
    fits_at j =
        terminal_descriptor_fits dumps text l request_id
          (insert name (truncate_utf8 original j) bounded) size

    -- A text of the field that fits, of which no longer one fits.
    abbrev pub IsBest : String → Type 0
    IsBest s =
        (m : ℕ) × (s ≡ truncate_utf8 original m)
        × (fits_at m ≡ true)
        × ((j : ℕ) → m < j → j ≤ len original → fits_at j ≡ false)

    middle_between :
        (low high : ℕ) → low < high → (low ≤ (low + high - 1) / 2) × ((low + high - 1) / 2 < high)
    middle_between low high h = omega (arith, h)

    longest_from-IsBest :
        ((i j : ℕ) → i ≤ j → j ≤ len original → fits_at j ≡ true → fits_at i ≡ true)
        → (fuel low high : ℕ) (best : String) (b : ℕ) → high ≤ low + fuel
        → high ≤ suc (len original)
        → low ≤ suc b
        → best ≡ truncate_utf8 original b
        → fits_at b ≡ true
        → ((j : ℕ) → high ≤ j → j ≤ len original → fits_at j ≡ false)
        → IsBest (longest dumps text l request_id size bounded name original fuel low high best)
    unfolding longest
    longest_from-IsBest mono zero low high best b enough within from same fits beyond =
        (b, same, fits, λ j lt le. beyond j (omega (arith, enough, from, lt)) le)
    longest_from-IsBest mono (suc fuel) low high best b enough within from same fits beyond =
        let mid = (low + high - 1) / 2 in
        let t = fits_at mid in
        bool-case IsBest (ltb low high)
          (λ h.
            let (above, below) = middle_between low high (ground (arith, h)) in
            longest_from-IsBest mono fuel (if t then suc mid else low) (if t then high else mid)
              (if t then truncate_utf8 original mid else best) (if t then mid else b)
              (ground (arith, enough, above, below)) (ground (arith, within, below))
              (ground (arith, from)) (ground (arith, same)) (ground (arith, fits))
              (λ j le len_le. ground (arith, le, beyond j, mono mid j, len_le)))
          (λ h. (b, same, fits, λ j lt le. beyond j (ground (arith, h, from, lt)) le))

    -- Where a text that is cut further fits the better, and the empty one fits, the search ends with the
    -- longest cut of the field's text that fits.
    pub longest-IsBest :
        ((i j : ℕ) → i ≤ j → j ≤ len original → fits_at j ≡ true → fits_at i ≡ true)
        → fits_at 0 ≡ true
        → IsBest (
            longest dumps text l request_id size bounded name original
              (suc (len original))
              0
              (suc (len original))
              "")
    longest-IsBest mono fits =
        longest_from-IsBest mono (suc (len original)) 0 (suc (len original)) "" 0 (omega arith)
          (omega arith) (omega arith) (sym (truncate_utf8-zero original)) fits
          (λ j lt le. ground (arith, lt, le))
