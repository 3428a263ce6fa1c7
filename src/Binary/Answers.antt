-- ===== src/Binary/Answers.antt =====
-- Each command of src/YAMBinaryProtocolProcessor.cpp answers in whole frames.
use yamemcached.Base.{
  ℕ, zero, suc, ◌+◌, ◌%◌, ◌^◌, ◌<◌, ◌≡◌, refl, ap, Bool, true, false, Option, none, some, List, [],
  ◌++◌, length, length-append, Outcome, ok, ◌>>=◌, ◌==◌, not, ◌||◌, if◌then◌else◌, arith,
}
use yamemcached.Request.Info.{StorageValue}
use yamemcached.Request.Out.{text}
use yamemcached.Request.Store.{Store}
use yamemcached.Binary.Header.{read_header, BinaryHeader, header_size, bytes_of, read_number}
use yamemcached.Binary.Commands.{
  Exchange, response, send, skip, send_if, not_found_bytes, run_get, run_add, run_set, replace_cas,
  run_replace, run_delete, key_at, value_of,
}
use yamemcached.Binary.Frames.{
  Adds, Gives, gave, aborted, faulted, spun, Gives-if, Gives-bind, same_out, send-Adds, Adds-trans,
}

-- What the store has for the key is not too long for a length of 32 bits with a key beside it.
pub record IsShort {S : Type 0} (store : Store S) (s : S) (thread : ℕ) (key : List ℕ) : Type 0 where
  pub short :
      (v : StorageValue) (s' : S)
      → store.get s thread key ≡ ok (some v, s')
      → length v.value < 2 ^ 31

pub read_2-lt : (buf : ℕ → ℕ) (p : ℕ) → ((i : ℕ) → buf i < 256) → read_number buf p 2 < 2 ^ 16
unfolding read_number
read_2-lt buf p byte = omega (arith, byte p, byte (p + 1))

length-text : (buf : ℕ → ℕ) (p len : ℕ) → length (text buf p len) ≡ len
unfolding text
length-text buf p zero = refl
length-text buf p (suc len) = ap suc (length-text buf (p + 1) len)

module _ {S : Type 0} (store : Store S) (thread : ℕ) (junk : BinaryHeader) (memory : List ℕ → ℕ → ℕ)
    (exp_time : ℕ) where
  -- A reply with no body.
  pub plain :
      (status : ℕ) (x x0 : Exchange S)
      → x0.out ≡ x.out
      → Gives x (ok (send (response junk status 0 0 0) [] x0))
  unfolding response
  plain status x x0 e = gave _ (send-Adds _ [] x x0 e refl)

  maybe :
      (loud : Bool) (x x0 : Exchange S)
      → x0.out ≡ x.out
      → Gives x (ok (send_if loud (response junk 0 0 0 0) x0))
  unfolding send_if
  maybe true x x0 e = plain 0 x x0 e
  maybe false x x0 e = gave _ (same_out x x0 e)

  pub skipped : (h : BinaryHeader) (x : Exchange S) → Gives x (ok (skip h x))
  unfolding skip
  skipped h x = gave _ (same_out x _ refl)

  either :
      (c : Bool) (x a b : Exchange S)
      → Gives x (ok a)
      → Gives x (ok b)
      → Gives x (ok (if c then a else b))
  either true x a b p q = p
  either false x a b p q = q

  -- Where the output is that of `x` the end is one of the two replies.
  ended :
      (loud c : Bool) (status : ℕ) (x x0 : Exchange S)
      → x0.out ≡ x.out
      → Gives x (
          ok (
            if c
            then send_if loud (response junk 0 0 0 0) x0
            else send (response junk status 0 0 0) [] x0))
  ended loud c status x x0 e = either c x _ _ (maybe loud x x0 e) (plain status x x0 e)

  pub run_add-Gives :
      (loud : Bool) (h : BinaryHeader) (x : Exchange S)
      → Gives x (run_add store thread junk memory exp_time loud h x)
  unfolding run_add
  run_add-Gives loud h x = Gives-if x (h.key_len == 0 || h.extras_len == 0) (skipped h x) (
      Gives-bind x
        (store.insert x.store thread
          (key_at store thread junk memory exp_time x.out x.in_buffer_offset h)
          (value_of store thread junk memory exp_time x.out x.in_buffer_offset h) exp_time)
        _ (λ r e. ended loud r.0 2 x (record x { store = r.1 }) refl))

  Gives-after : (x y : Exchange S) (m : Outcome (Exchange S)) → Adds x y → Gives y m → Gives x m
  Gives-after x y _ p (gave z q) = gave z (Adds-trans x y z p q)
  Gives-after x y _ p aborted = aborted
  Gives-after x y _ p faulted = faulted
  Gives-after x y _ p spun = spun

  maybe-Adds :
      (loud : Bool) (x x0 : Exchange S)
      → x0.out ≡ x.out
      → Adds x (send_if loud (response junk 0 0 0 0) x0)
  unfolding send_if response
  maybe-Adds true x x0 e = send-Adds _ [] x x0 e refl
  maybe-Adds false x x0 e = same_out x x0 e

  pub run_set-Gives :
      (loud : Bool) (h : BinaryHeader) (x : Exchange S)
      → Gives x (run_set store thread junk memory exp_time loud h x)
  unfolding run_set
  run_set-Gives loud h x = Gives-if x (h.key_len == 0 || h.extras_len == 0) (skipped h x) (
      Gives-bind x
        (store.insert_or_set x.store thread
          (key_at store thread junk memory exp_time x.out x.in_buffer_offset h)
          (value_of store thread junk memory exp_time x.out x.in_buffer_offset h) exp_time)
        _
        (λ r e.
          let x1 = send_if loud (response junk 0 0 0 0) (record x { store = r.1 }) in
          Gives-after x x1
            (run_add store thread junk memory exp_time
              ((read_header (memory x1.out) x1.in_buffer_offset).op_code == 2)
              (read_header (memory x1.out) x1.in_buffer_offset) x1)
            (maybe-Adds loud x (record x { store = r.1 }) refl)
            (run_add-Gives ((read_header (memory x1.out) x1.in_buffer_offset).op_code == 2)
              (read_header (memory x1.out) x1.in_buffer_offset) x1)))

  pub run_delete-Gives :
      (loud : Bool) (h : BinaryHeader) (x : Exchange S)
      → Gives x (run_delete store thread junk memory exp_time loud h x)
  unfolding run_delete
  run_delete-Gives loud h x = Gives-if x (h.key_len == 0) (skipped h x) (
      Gives-bind x
        (store.remove x.store thread
          (key_at store thread junk memory exp_time x.out x.in_buffer_offset h))
        _ (λ r e. ended loud r.0 1 x (record x { store = r.1 }) refl))

  replace_cas-Gives :
      (locks : ℕ → ℕ) (loud : Bool) (h : BinaryHeader) (x : Exchange S)
      → Gives x (replace_cas store thread junk memory exp_time locks loud h x)
  unfolding replace_cas send_if response
  replace_cas-Gives locks loud h x =
      Gives-bind x
        (store.get_locked x.store thread
          (key_at store thread junk memory exp_time x.out x.in_buffer_offset h) locks)
        _ (λ r e. by_ticket r.0 r.1 r.2)
    where
      loudly :
          (b : Bool) (head : BinaryHeader) (x0 : Exchange S)
          → x0.out ≡ x.out
          → 0 ≡ head.body_len
          → Gives x (ok (if b then send head [] x0 else x0))
      loudly true head x0 e len = gave _ (send-Adds head [] x x0 e len)
      loudly false head x0 e len = gave _ (same_out x x0 e)

      by_ticket :
          (old : Option StorageValue) (s : S) (held : ℕ → ℕ)
          → let v = value_of store thread junk memory exp_time x.out x.in_buffer_offset h in
            let ticket = (v.cas_ticket + 1) % 2 ^ 64 in
            Gives x (elim old [
              | some old ↦
                  if old.cas_ticket == v.cas_ticket
                  then (store.set_locked s thread
                        (record v { cas_ticket = ticket })
                        exp_time
                        held
                        0
                        0
                      >>= λ w. ok (
                          send_if loud
                            (record (response junk 0 0 0 0) { cas_ticket = ticket })
                            (record x { store = w.1 })))
                  else (store.unlock_element s held 0 0 >>= λ w.
                      ok (send (response junk 5 0 0 0) [] (record x { store = w.1 })))
              | none ↦ store.unlock_element s held 0 0 >>= λ w.
                  ok (send (response junk 1 0 0 0) [] (record x { store = w.1 }))
            ])
      by_ticket none s held =
          Gives-bind x (store.unlock_element s held 0 0) _
            (λ w e. plain 1 x (record x { store = w.1 }) refl)
      by_ticket (some old) s held =
          Gives-if x _
            (Gives-bind x (store.set_locked s thread _ exp_time held 0 0) _
              (λ w e. loudly loud _ (record x { store = w.1 }) refl refl))
            (Gives-bind x (store.unlock_element s held 0 0) _
              (λ w e. plain 5 x (record x { store = w.1 }) refl))

  pub run_replace-Gives :
      (locks : ℕ → ℕ) (loud : Bool) (h : BinaryHeader) (x : Exchange S)
      → Gives x (run_replace store thread junk memory exp_time locks loud h x)
  unfolding run_replace
  run_replace-Gives locks loud h x =
      Gives-if x (h.key_len == 0 || h.extras_len == 0) (skipped h x) (
        Gives-if x (h.cas_ticket == 0)
          (Gives-bind x
            (store.set x.store thread
              (key_at store thread junk memory exp_time x.out x.in_buffer_offset h)
              (value_of store thread junk memory exp_time x.out x.in_buffer_offset h) exp_time)
            _ (λ r e. ended loud r.0 1 x (record x { store = r.1 }) refl))
          (replace_cas-Gives locks loud h x))

  length_shown :
      (b : Bool) (buf : ℕ → ℕ) (p len : ℕ)
      → len < 2 ^ 16
      → length (if b then text buf p len else []) < 2 ^ 16
  length_shown true buf p len h = rw (length-text buf p len) h
  length_shown false buf p len h = omega arith

  length-bytes_of_4 : (v : ℕ) → length (bytes_of 4 v) ≡ 4
  unfolding bytes_of
  length-bytes_of_4 v = refl

  pub run_get-Gives :
      (with_key loud : Bool) (h : BinaryHeader) (x : Exchange S)
      → h.key_len < 2 ^ 16
      → IsShort store x.store thread
          (text (memory x.out) (x.in_buffer_offset + header_size) h.key_len)
      → Gives x (run_get store thread junk memory exp_time with_key loud h x)
  unfolding run_get response
  run_get-Gives with_key loud h x small store_short =
      Gives-if x (h.key_len == 0 || not (h.key_len == h.body_len)) (skipped h x) (
        Gives-bind x
          (store.get x.store thread
            (text (memory x.out) (x.in_buffer_offset + header_size) h.key_len))
          _ (λ r e. answered r.0 r.1 e))
    where
      answered :
          (found : Option StorageValue) (s : S)
          → store.get x.store thread
              (text (memory x.out) (x.in_buffer_offset + header_size) h.key_len)
            ≡ ok (found, s)
          → let shown =
              if with_key
              then text (memory x.out) (x.in_buffer_offset + header_size) h.key_len
              else [] in
            Gives x (elim found [
              | some v ↦ ok (
                  send
                    (response junk 0 (length shown) 4 (4 + length v.value + length shown))
                    (bytes_of 4 v.flags ++ shown ++ v.value)
                    (record x { store = s }))
              | none ↦ ok (
                  if loud
                  then send
                      (response junk 1 (length shown) 0 (10 + length shown))
                      (shown ++ not_found_bytes)
                      (record x { store = s })
                  else record x { store = s })
            ])
      answered (some v) s e =
          let shown =
            if with_key
            then text (memory x.out) (x.in_buffer_offset + header_size) h.key_len
            else [] in
          let few =
            length_shown with_key (memory x.out) (x.in_buffer_offset + header_size) h.key_len
              small in
          gave _ (
            send-Adds _ (bytes_of 4 v.flags ++ shown ++ v.value) x (record x { store = s }) refl
              (omega (
                arith,
                few,
                store_short.short v s e,
                length-append (bytes_of 4 v.flags ++ shown) v.value,
                length-append (bytes_of 4 v.flags) shown,
                length-bytes_of_4 v.flags,
              )))
      answered none s e =
          let shown =
            if with_key
            then text (memory x.out) (x.in_buffer_offset + header_size) h.key_len
            else [] in
          let few =
            length_shown with_key (memory x.out) (x.in_buffer_offset + header_size) h.key_len
              small in
          either loud x _ _
            (gave _ (
              send-Adds _ (shown ++ not_found_bytes) x (record x { store = s }) refl
                (omega (arith, few, length-append shown not_found_bytes))))
            (gave _ (same_out x (record x { store = s }) refl))
