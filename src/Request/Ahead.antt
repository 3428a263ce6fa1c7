-- ===== src/Request/Ahead.antt =====
-- The header parser of src/RequestProcessor.cpp ends ahead of where it began, and not far behind
-- the bytes that are there.
use yamemcached.Base.{
  ℕ, zero, suc, ◌+◌, ◌-◌, ◌≤◌, ◌<◌, ◌≡◌, refl, Bool, true, false, Option, none, some, Outcome, ok,
  abort, fault, spin, ◌>>=◌, ◌==◌, if◌then◌else◌, arith, Bool-cases, inl, inr, ==_of_false,
}
use yamemcached.Request.Info.{RequestInfo, RequestType, ParsingState, request_type_of}
use yamemcached.Request.Matcher.{Matcher, match_substring}
use yamemcached.Request.Header.{
  Parsed, is_end, scan_from, scan, field, parse_storage, parse_length, end_storage, more_keys,
  parse_get, parse_request, parse_memcached_header,
}

scan_from-range :
    (stop : ℕ → Bool) (buf : ℕ → ℕ) (left cur : ℕ)
    → (cur ≤ scan_from stop buf left cur) × (scan_from stop buf left cur ≤ cur + left)
unfolding scan_from
scan_from-range stop buf zero cur = (omega arith, omega arith)
scan_from-range stop buf (suc left) cur =
    let (low, high) = scan_from-range stop buf left (cur + 1) in (ground arith, ground arith)

-- A parse from `beg` that found the end, or was cut short, with the state of the request kept.
pub data Ahead (beg limit : ℕ) (state : ParsingState) : Parsed → Type 0 where
  reached :
      (end : ℕ) (info : RequestInfo)
      → beg < end
      → end < limit + 9
      → info.state ≡ state
      → Ahead beg limit state (ok (some end, info))
  cut : (info : RequestInfo) → info.state ≡ state → Ahead beg limit state (ok (none, info))
  aborted : Ahead beg limit state abort
  faulted : Ahead beg limit state fault
  spun : Ahead beg limit state spin

module _ {beg limit : ℕ} {state : ParsingState} where
  Ahead-if :
      (c : Bool) {m n : Parsed}
      → Ahead beg limit state m
      → Ahead beg limit state n
      → Ahead beg limit state (if c then m else n)
  Ahead-if true a b = a
  Ahead-if false a b = b

  Ahead-field :
      (stop : ℕ → Bool) (buf : ℕ → ℕ) (cur : ℕ) (info : RequestInfo) (then_ : ℕ → Parsed)
      → cur ≤ limit
      → info.state ≡ state
      → ((end : ℕ) → cur ≤ end → end < limit → Ahead beg limit state (then_ end))
      → Ahead beg limit state (field stop buf limit cur info then_)
  unfolding field
  Ahead-field stop buf cur info then_ h same on =
      let (low, high) = scan_from-range stop buf (limit - cur) cur in
      elim (Bool-cases (scan stop buf limit cur == limit)) [
        | inl whole ↦ rw whole (cut info same)
        | inr more ↦
            let ne = ==_of_false _ _ more in
            rw more (on (scan stop buf limit cur) low (omega arith))
      ]

  end_storage-Ahead :
      (buf : ℕ → ℕ) (cur : ℕ) (info : RequestInfo)
      → beg ≤ cur
      → cur < limit
      → info.state ≡ state
      → Ahead beg limit state (end_storage buf cur info)
  unfolding end_storage
  end_storage-Ahead buf cur info low high same =
      Ahead-if _ (reached _ _ (omega arith) (omega arith) same)
        (reached _ _ (omega arith) (omega arith) same)

  parse_length-Ahead :
      (buf : ℕ → ℕ) (info : RequestInfo) (is_cas : Bool) (cur : ℕ)
      → beg ≤ cur
      → cur ≤ limit
      → info.state ≡ state
      → Ahead beg limit state (parse_length buf limit info is_cas cur)
  unfolding parse_length
  parse_length-Ahead buf info is_cas cur low high same = Ahead-field _ _ _ _ _ high same λ end h h'.
      Ahead-if is_cas
        (Ahead-field _ _ _ _ _ (omega arith) same
          λ end2 h2 h2'. end_storage-Ahead buf end2 _ (omega arith) h2' same)
        (end_storage-Ahead buf end _ (omega arith) h' same)

  parse_storage-Ahead :
      (buf : ℕ → ℕ) (info : RequestInfo) (is_cas : Bool) (cur : ℕ)
      → beg ≤ cur
      → cur < limit
      → info.state ≡ state
      → Ahead beg limit state (parse_storage buf limit info is_cas cur)
  unfolding parse_storage
  parse_storage-Ahead buf info is_cas cur low high same =
      Ahead-field _ _ _ _ _ (omega arith) same λ end h h'.
        Ahead-field _ _ _ _ _ (omega arith) same λ end2 h2 h2'.
          Ahead-field _ _ _ _ _ (omega arith) same
            λ end3 h3 h3'. parse_length-Ahead buf _ is_cas _ (omega arith) (omega arith) same

  more_keys-Ahead :
      (rounds : ℕ) (buf : ℕ → ℕ) (info : RequestInfo) (cur : ℕ)
      → beg ≤ cur
      → cur < limit
      → info.state ≡ state
      → Ahead beg limit state (more_keys rounds buf limit info cur)
  unfolding more_keys
  more_keys-Ahead zero buf info cur low high same = spun
  more_keys-Ahead (suc rounds) buf info cur low high same =
      let (low', high') = scan_from-range is_end buf (limit - (cur + 1)) (cur + 1) in
      Ahead-if (buf cur == 32)
        (elim (Bool-cases (scan is_end buf limit (cur + 1) == limit)) [
          | inl whole ↦ rw whole (cut _ same)
          | inr more ↦
              let ne = ==_of_false _ _ more in
              rw more (
                more_keys-Ahead rounds buf _ (scan is_end buf limit (cur + 1)) (omega arith)
                  (omega arith) same)
        ])
        (reached _ _ (omega arith) (omega arith) same)

  parse_get-Ahead :
      (buf : ℕ → ℕ) (info : RequestInfo) (cur : ℕ)
      → beg ≤ cur
      → cur < limit
      → info.state ≡ state
      → Ahead beg limit state (parse_get buf limit info cur)
  unfolding parse_get
  parse_get-Ahead buf info cur low high same =
      Ahead-field _ _ _ _ _ (omega arith) same
        λ end h h'. more_keys-Ahead (limit - end) buf _ end (omega arith) h' same

  parse_request-Ahead :
      (buf : ℕ → ℕ) (info : RequestInfo) (kind : RequestType) (cur : ℕ)
      → beg ≤ cur
      → cur < limit
      → info.state ≡ state
      → Ahead beg limit state (parse_request buf limit info kind cur)
  unfolding parse_request
  parse_request-Ahead buf info RequestType.set cur low high same =
      parse_storage-Ahead buf info false cur low high same
  parse_request-Ahead buf info RequestType.add cur low high same =
      parse_storage-Ahead buf info false cur low high same
  parse_request-Ahead buf info RequestType.replace cur low high same =
      parse_storage-Ahead buf info false cur low high same
  parse_request-Ahead buf info RequestType.append cur low high same =
      parse_storage-Ahead buf info false cur low high same
  parse_request-Ahead buf info RequestType.prepend cur low high same =
      parse_storage-Ahead buf info false cur low high same
  parse_request-Ahead buf info RequestType.cas cur low high same =
      parse_storage-Ahead buf info true cur low high same
  parse_request-Ahead buf info RequestType.get cur low high same =
      parse_get-Ahead buf info cur low high same
  parse_request-Ahead buf info RequestType.gets cur low high same =
      parse_get-Ahead buf info cur low high same
  parse_request-Ahead buf info RequestType.stats cur low high same =
      reached _ _ (omega arith) (omega arith) same
  parse_request-Ahead buf info _ cur low high same = aborted

-- From an offset not behind the limit, the end of a header that parseMemcachedHeader gives is
-- behind that offset and at most eight bytes behind the limit, and the state of the request is
-- kept.
pub parse_memcached_header-Ahead :
    (matcher : Matcher) (buf : ℕ → ℕ) (beg limit : ℕ) (info : RequestInfo)
    → beg ≤ limit
    → Ahead beg limit info.state (parse_memcached_header matcher buf beg limit info)
unfolding parse_memcached_header
parse_memcached_header-Ahead matcher buf beg limit info h =
    let (low, high) = scan_from-range is_end buf (limit - beg) beg in
    elim (Bool-cases (scan is_end buf limit beg == limit)) [
      | inl whole ↦ rw whole (cut info refl)
      | inr more ↦
          let ne = ==_of_false _ _ more in
          rw more
            (found (match_substring matcher buf beg (scan is_end buf limit beg)) low (omega arith))
    ]
  where
    found :
        (m : Outcome (Option ℕ))
        → beg ≤ scan is_end buf limit beg
        → scan is_end buf limit beg < limit
        → Ahead beg limit info.state (
            m >>= λ f. elim f [
              | none ↦ ok (none, info)
              | some index ↦
                  parse_request buf limit
                    (record info { request_type = request_type_of index })
                    (request_type_of index)
                    (scan is_end buf limit beg)
            ])
    found (ok none) low high = cut info refl
    found (ok (some index)) low high =
        parse_request-Ahead buf _ (request_type_of index) _ low high refl
    found abort low high = aborted
    found fault low high = faulted
    found spin low high = spun
