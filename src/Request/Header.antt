-- ===== src/Request/Header.antt =====
-- `parseMemcachedHeader` of src/RequestProcessor.cpp. `limit` is the offset behind the last byte
-- that may be parsed. The result is the end of the header, or `none` where more bytes are needed;
-- what was stored in the request before that stays there.
use yamemcached.Base.{
  ℕ, zero, suc, ◌+◌, ◌-◌, ◌%◌, ◌^◌, Bool, true, false, ◌||◌, Option, none, some, List, [], ◌∷◌,
  ◌++◌, Outcome, ok, abort, spin, ◌>>=◌, ◌==◌, if◌then◌else◌, bit_or,
}
use yamemcached.Number.{atous, atoui, atoull}
use yamemcached.Request.Info.{RequestInfo, RequestType, request_type_of}
use yamemcached.Request.Matcher.{Matcher, match_substring}

abbrev pub Parsed : Type 0
Parsed = Outcome (Option ℕ × RequestInfo)

abbrev pub is_space : ℕ → Bool
is_space c = c == 32

abbrev pub is_end : ℕ → Bool
is_end c = c == 32 || c == 13

-- `while (*pCur != ... && pCur != pLimit) ++pCur`, with `left` bytes before the limit
unfoldable pub scan_from : (ℕ → Bool) → (ℕ → ℕ) → ℕ → ℕ → ℕ
scan_from stop buf zero cur = cur
scan_from stop buf (suc left) cur =
    let rest = scan_from stop buf left (cur + 1) in if stop (buf cur) then cur else rest

abbrev pub scan : (ℕ → Bool) → (ℕ → ℕ) → ℕ → ℕ → ℕ
scan stop buf limit cur = scan_from stop buf (limit - cur) cur

-- A scan, with the return where it comes to the limit.
unfoldable pub field : (ℕ → Bool) → (ℕ → ℕ) → ℕ → ℕ → RequestInfo → (ℕ → Parsed) → Parsed
field stop buf limit cur info then_ =
    let end = scan stop buf limit cur in if end == limit then ok (none, info) else then_ end

-- The end of a header with data: `noreply` is skipped, or the end of the line is.
unfoldable pub end_storage : (ℕ → ℕ) → ℕ → RequestInfo → Parsed
end_storage buf cur info =
    if buf cur == 32
    then ok (
      some (cur + 9),
      record info { request_flags = bit_or info.request_flags 1; p_data_buffer = some (cur + 9) },
    )
    else ok (some (cur + 2), record info { p_data_buffer = some (cur + 2) })

-- The length of the data, and for `cas` the ticket.
unfoldable pub parse_length : (ℕ → ℕ) → ℕ → RequestInfo → Bool → ℕ → Parsed
parse_length buf limit info is_cas beg = field is_end buf limit beg info λ end.
    let info1 = record info { data_len = atoull buf beg end } in
    if is_cas
    then field is_end buf limit (end + 1) info1
        (λ end2. end_storage buf end2 (record info1 { cas_ticket = atoull buf (end + 1) end2 }))
    else end_storage buf end info1

-- key flags exptime bytes noreply?
unfoldable pub parse_storage : (ℕ → ℕ) → ℕ → RequestInfo → Bool → ℕ → Parsed
parse_storage buf limit info is_cas cur =
    let key = cur + 1 in
    let info1 = record info { p_key_buffer = some key } in
    field is_space buf limit key info1 λ end.
      let info2 = record info1 { key_buffer_len = (end - key) % 2 ^ 16 } in
      field is_space buf limit (end + 1) info2 λ end2.
        let info3 = record info2 { flags = atous buf (end + 1) end2 } in
        field is_space buf limit (end2 + 1) info3 λ end3.
          parse_length buf limit (record info3 { exp_time = atoui buf (end2 + 1) end3 }) is_cas
            (end3 + 1)

-- `getKeysList`, made if there is none
abbrev pub keys_of : RequestInfo → List (ℕ × ℕ)
keys_of info = elim info.get_keys_list [ none ↦ [] | some keys ↦ keys ]

-- The further keys of `get`, from the space or the end of the line at `cur`. Each takes a byte.
unfoldable pub more_keys : ℕ → (ℕ → ℕ) → ℕ → RequestInfo → ℕ → Parsed
more_keys zero buf limit info cur = spin
more_keys (suc rounds) buf limit info cur =
    let info1 = record info { get_keys_list = some (keys_of info) } in
    let end = scan is_end buf limit (cur + 1) in
    let info2 = record info {
      get_keys_list = some (keys_of info ++ (cur + 1, (end - (cur + 1)) % 2 ^ 16) ∷ []);
    } in
    let rest = more_keys rounds buf limit info2 end in
    if buf cur == 32
    then (if end == limit then ok (none, info1) else rest)
    else ok (some (cur + 2), info)

-- key key? key? ...
unfoldable pub parse_get : (ℕ → ℕ) → ℕ → RequestInfo → ℕ → Parsed
parse_get buf limit info cur =
    let key = cur + 1 in
    let info1 = record info { p_key_buffer = some key } in
    field is_end buf limit key info1 λ end.
      more_keys (limit - end) buf limit (record info1 { key_buffer_len = (end - key) % 2 ^ 16 }) end

-- What follows the command.
unfoldable pub parse_request : (ℕ → ℕ) → ℕ → RequestInfo → RequestType → ℕ → Parsed
parse_request buf limit info RequestType.set cur = parse_storage buf limit info false cur
parse_request buf limit info RequestType.add cur = parse_storage buf limit info false cur
parse_request buf limit info RequestType.replace cur = parse_storage buf limit info false cur
parse_request buf limit info RequestType.append cur = parse_storage buf limit info false cur
parse_request buf limit info RequestType.prepend cur = parse_storage buf limit info false cur
parse_request buf limit info RequestType.cas cur = parse_storage buf limit info true cur
parse_request buf limit info RequestType.get cur = parse_get buf limit info cur
parse_request buf limit info RequestType.gets cur = parse_get buf limit info cur
parse_request buf limit info RequestType.stats cur = ok (some (cur + 2), info)
parse_request buf limit info _ cur = abort

-- `parseMemcachedHeader`
unfoldable pub parse_memcached_header : Matcher → (ℕ → ℕ) → ℕ → ℕ → RequestInfo → Parsed
parse_memcached_header matcher buf beg limit info =
    let cur = scan is_end buf limit beg in
    if cur == limit
    then ok (none, info)
    else (match_substring matcher buf beg cur >>= λ found. elim found [
      | none ↦ ok (none, info)
      | some index ↦
          parse_request buf limit (record info { request_type = request_type_of index })
            (request_type_of index) cur
    ])
