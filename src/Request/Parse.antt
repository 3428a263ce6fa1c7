-- ===== src/Request/Parse.antt =====
-- What the parser of src/RequestProcessor.cpp makes of a line for a command with data.
use yamemcached.Base.{
  ℕ, zero, suc, ◌+◌, ◌-◌, ◌%◌, ◌^◌, ◌≤◌, ◌<◌, ◌≡◌, refl, sym, ap, ◌∙◌, inl, inr, Bool, true, false,
  Bool-cases, none, some, ok, ◌==◌, leb, ==_refl, ==_of_ne, le→leb, ok-injective, subst, arith,
}
use yamemcached.Number.{atous, atoui, atoull, itoa, fall_through}
use yamemcached.Number.Digits.{itoa-atoull}
use yamemcached.Request.Info.{RequestInfo}
use yamemcached.Request.Header.{
  Parsed, is_space, is_end, scan_from, field, parse_storage, parse_length, end_storage,
}

-- The bytes from `beg` to `end` are a field: `end` is the first that stops a scan.
pub record IsField (stop : ℕ → Bool) (buf : ℕ → ℕ) (beg end : ℕ) : Type 0 where
  pub order : beg ≤ end
  pub inside : (i : ℕ) → beg ≤ i → i < end → stop (buf i) ≡ false
  pub stops : stop (buf end) ≡ true

scan_from-lem :
    (stop : ℕ → Bool) (buf : ℕ → ℕ) (left beg end : ℕ)
    → IsField stop buf beg end
    → end < beg + left
    → scan_from stop buf left beg ≡ end
unfolding scan_from
scan_from-lem stop buf zero beg end f h = omega (arith, f.order)
scan_from-lem stop buf (suc left) beg end f h = elim (Bool-cases (beg == end)) [
  | inl at ↦
      let same : beg ≡ end = ground arith in rw (ap (λ (i : ℕ). stop (buf i)) same ∙ f.stops) same
  | inr before ↦
      let ne : beg < end = ground (arith, f.order) in
      rw (f.inside beg (omega arith) ne) (
        scan_from-lem stop buf left (beg + 1) end
          (record {
            order = omega arith;
            inside = λ i a b. f.inside i (omega arith) b;
            stops = f.stops;
          })
          (omega arith))
]

-- Where no byte stops the scan, it comes to the limit.
scan_from-cut :
    (stop : ℕ → Bool) (buf : ℕ → ℕ) (left beg end : ℕ)
    → IsField stop buf beg end
    → beg + left ≤ end
    → scan_from stop buf left beg ≡ beg + left
unfolding scan_from
scan_from-cut stop buf zero beg end f h = omega arith
scan_from-cut stop buf (suc left) beg end f h = rw (f.inside beg (omega arith) (omega arith)) (
    scan_from-cut stop buf left (beg + 1) end
      (record {
        order = omega arith;
        inside = λ i a b. f.inside i (omega arith) b;
        stops = f.stops;
      })
      (omega arith)
    ∙ omega arith)

to_limit : (beg limit : ℕ) → beg ≤ limit → beg + (limit - beg) ≡ limit
to_limit beg limit h = omega arith

-- A field that ends before the limit is scanned whole; one that does not is cut.
field-lem :
    (stop : ℕ → Bool) (buf : ℕ → ℕ) (limit beg end : ℕ) (info : RequestInfo) (then_ : ℕ → Parsed)
    → IsField stop buf beg end
    → end < limit
    → field stop buf limit beg info then_ ≡ then_ end
unfolding field
field-lem stop buf limit beg end info then_ f h =
    rw
      (
        scan_from-lem stop buf (limit - beg) beg end f (omega (arith, f.order)),
        ==_of_ne end limit (omega arith),
      )
      refl

field-cut :
    (stop : ℕ → Bool) (buf : ℕ → ℕ) (limit beg end : ℕ) (info : RequestInfo) (then_ : ℕ → Parsed)
    → IsField stop buf beg end
    → beg ≤ limit
    → limit ≤ end
    → field stop buf limit beg info then_ ≡ ok (none, info)
unfolding field
field-cut stop buf limit beg end info then_ f h h' =
    rw
      (
        scan_from-cut stop buf (limit - beg) beg end f (omega arith) ∙ to_limit beg limit h,
        ==_refl limit,
      )
      refl

fall_through-same :
    (w : ℕ) (buf s : ℕ → ℕ) (beg k i : ℕ)
    → i ≤ k
    → ((j : ℕ) → j < k → buf (beg + j) ≡ s j)
    → fall_through w buf (beg + k) i ≡ fall_through w s k i
unfolding fall_through
fall_through-same w buf s beg k zero h same = refl
fall_through-same w buf s beg k (suc i) h same =
    let at : buf (beg + k - suc i) ≡ s (k - suc i) =
      ap buf (omega arith) ∙ same (k - suc i) (omega arith) in
    rw (at, fall_through-same w buf s beg k i (omega arith) same) refl

-- The bytes from `beg` to `end` are what `itoa` prints for `n`.
pub record IsPrinted (buf : ℕ → ℕ) (beg end n : ℕ) : Type 0 where
  pub printed : ℕ → ℕ
  pub digits : ℕ
  pub ran : itoa n (λ _. 0) ≡ ok (printed, digits)
  pub ends : end ≡ beg + digits
  pub same : (j : ℕ) → j < digits → buf (beg + j) ≡ printed j

value_of : (s : ℕ → ℕ) (k : ℕ) → k ≤ 20 → fall_through 64 s k k ≡ atoull s 0 k
unfolding atoull
value_of s k few = let from : k - 0 ≡ k = omega arith in rw (from, le→leb _ _ few) refl

IsPrinted-atoull :
    (buf : ℕ → ℕ) (beg end n : ℕ) → n < 2 ^ 64 → IsPrinted buf beg end n → atoull buf beg end ≡ n
unfolding atoull
IsPrinted-atoull buf beg end n h p =
    let (s, k, ran, any, few, space, value) = itoa-atoull n (λ _. 0) h in
    let same : (s, k) ≡ (p.printed, p.digits) = ok-injective (sym ran ∙ p.ran) in
    let few' : p.digits ≤ 20 = subst (λ (x : (ℕ → ℕ) × ℕ). x.1 ≤ 20) same few in
    let read : atoull p.printed 0 p.digits ≡ n =
      subst (λ (x : (ℕ → ℕ) × ℕ). atoull x.0 0 x.1 ≡ n) same value in
    let len : end - beg ≡ p.digits = omega (arith, p.ends) in
    let from_0 : fall_through 64 p.printed p.digits p.digits ≡ n =
      value_of p.printed p.digits few' ∙ read in
    rw (len, le→leb _ _ few', p.ends)
      (fall_through-same 64 buf p.printed beg p.digits p.digits (omega arith) p.same ∙ from_0)

-- A line of a command with data, from the byte before the key on.
pub record IsLine (buf : ℕ → ℕ) (cur key_end flags_end time_end line_end n : ℕ) : Type 0 where
  pub key : IsField is_space buf (cur + 1) key_end
  pub flags : IsField is_space buf (key_end + 1) flags_end
  pub time : IsField is_space buf (flags_end + 1) time_end
  pub length : IsField is_end buf (time_end + 1) line_end
  pub printed : IsPrinted buf (time_end + 1) line_end n
  pub small : n < 2 ^ 64

-- A line of a command with data but no ticket, ended by a carriage return before the limit, is
-- parsed into its fields, and the length is the number that itoa printed.
pub parse_storage-IsLine :
    (buf : ℕ → ℕ) (limit : ℕ) (info : RequestInfo) (cur key_end flags_end time_end line_end n : ℕ)
    → IsLine buf cur key_end flags_end time_end line_end n
    → buf line_end ≡ 13
    → line_end < limit
    → parse_storage buf limit info false cur
      ≡ ok (
        some (line_end + 2),
        record info {
          p_key_buffer = some (cur + 1);
          key_buffer_len = (key_end - (cur + 1)) % 2 ^ 16;
          flags = atous buf (key_end + 1) flags_end;
          exp_time = atoui buf (flags_end + 1) time_end;
          data_len = n;
          p_data_buffer = some (line_end + 2);
        },
      )
unfolding parse_storage parse_length end_storage
parse_storage-IsLine buf limit info cur key_end flags_end time_end line_end n l cr h =
    field-lem is_space buf limit (cur + 1) key_end _ _ l.key
      (omega (arith, l.flags.order, l.time.order, l.length.order))
    ∙ field-lem is_space buf limit (key_end + 1) flags_end _ _ l.flags
        (omega (arith, l.time.order, l.length.order))
    ∙ field-lem is_space buf limit (flags_end + 1) time_end _ _ l.time
        (omega (arith, l.length.order))
    ∙ field-lem is_end buf limit (time_end + 1) line_end _ _ l.length h
    ∙ rw (cr, IsPrinted-atoull buf (time_end + 1) line_end n l.small l.printed) refl

-- The line from its length on, with a ticket behind it for `cas`.
unfoldable pub HasEnd : Bool → (ℕ → ℕ) → ℕ → ℕ → Type 0
HasEnd false buf beg line_end = IsField is_end buf beg line_end
HasEnd true buf beg line_end =
    (length_end : ℕ) × IsField is_end buf beg length_end
    × IsField is_end buf (length_end + 1) line_end

-- The fields of a line of a command with data, whatever stands in them.
pub record HasFields (is_cas : Bool) (buf : ℕ → ℕ) (cur key_end flags_end time_end line_end : ℕ)
    : Type 0 where
  pub key : IsField is_space buf (cur + 1) key_end
  pub flags : IsField is_space buf (key_end + 1) flags_end
  pub time : IsField is_space buf (flags_end + 1) time_end
  pub end : HasEnd is_cas buf (time_end + 1) line_end

parse_length-cut :
    (is_cas : Bool) (buf : ℕ → ℕ) (limit : ℕ) (info : RequestInfo) (beg line_end : ℕ)
    → HasEnd is_cas buf beg line_end
    → beg ≤ limit
    → limit ≤ line_end
    → (info' : RequestInfo) × (parse_length buf limit info is_cas beg ≡ ok (none, info'))
unfolding parse_length HasEnd
parse_length-cut false buf limit info beg line_end f h h' =
    (_, field-cut is_end buf limit beg line_end _ _ f h h')
parse_length-cut true buf limit info beg line_end (length_end, f, ticket) h h' =
    elim (Bool-cases (leb limit length_end)) [
      | inl cut ↦ (_, field-cut is_end buf limit beg length_end _ _ f h (ground arith))
      | inr whole ↦
          let inside : length_end < limit = ground arith in
          (
            _,
            field-lem is_end buf limit beg length_end _ _ f inside
                ∙ field-cut is_end buf limit (length_end + 1) line_end _ _ ticket (omega arith) h',
          )
    ]

-- If a line of a command with data, with or without a ticket, is cut anywhere from its key to its
-- end, the parser asks for more bytes.
pub parse_storage-cut :
    (is_cas : Bool) (buf : ℕ → ℕ) (limit : ℕ) (info : RequestInfo)
    (cur key_end flags_end time_end line_end : ℕ)
    → HasFields is_cas buf cur key_end flags_end time_end line_end
    → cur < limit
    → limit ≤ line_end
    → (info' : RequestInfo) × (parse_storage buf limit info is_cas cur ≡ ok (none, info'))
unfolding parse_storage
parse_storage-cut is_cas buf limit info cur key_end flags_end time_end line_end l h h' =
    elim (Bool-cases (leb limit key_end)) [
      | inl c1 ↦
          (_, field-cut is_space buf limit (cur + 1) key_end _ _ l.key (omega arith) (ground arith))
      | inr d1 ↦
          let in1 : key_end < limit = ground arith in
          let f1 = field-lem is_space buf limit (cur + 1) key_end _ _ l.key in1 in
          elim (Bool-cases (leb limit flags_end)) [
            | inl c2 ↦ (
              _,
              f1
                  ∙ field-cut is_space buf limit (key_end + 1) flags_end _ _ l.flags (omega arith)
                      (ground arith),
            )
            | inr d2 ↦
                let in2 : flags_end < limit = ground arith in
                let f2 =
                  f1 ∙ field-lem is_space buf limit (key_end + 1) flags_end _ _ l.flags in2 in
                elim (Bool-cases (leb limit time_end)) [
                  | inl c3 ↦ (
                    _,
                    f2
                        ∙ field-cut is_space buf limit (flags_end + 1) time_end _ _ l.time
                            (omega arith) (ground arith),
                  )
                  | inr d3 ↦
                      let in3 : time_end < limit = ground arith in
                      let f3 =
                        f2 ∙ field-lem is_space buf limit (flags_end + 1) time_end _ _ l.time in3 in
                      let (info', cut) =
                        parse_length-cut is_cas buf limit _ (time_end + 1) line_end l.end
                          (omega arith) h' in
                      (info', f3 ∙ cut)
                ]
          ]
    ]
