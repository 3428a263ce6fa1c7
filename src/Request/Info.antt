-- ===== src/Request/Info.antt =====
-- What src/Common.hh says of a request: `RequestInfo`, with its constructor and its `reset`, and
-- `StorageValue`. A pointer into the input buffer is an offset in it.
use yamemcached.Base.{ℕ, Option, none, some, List, [], ◌∷◌, get_elem?}

pub data RequestType : Type 0 where
  get : RequestType
  set : RequestType
  add : RequestType
  delete : RequestType
  replace : RequestType
  cas : RequestType
  gets : RequestType
  append : RequestType
  prepend : RequestType
  incr : RequestType
  decr : RequestType
  touch : RequestType
  watch : RequestType
  lru_crawler : RequestType
  stats : RequestType
  slabs : RequestType
  stat : RequestType
  unsupported : RequestType
  type_max : RequestType

pub data ParsingState : Type 0 where
  ready_state : ParsingState
  parsing_header : ParsingState
  parsing_data : ParsingState
  done_state : ParsingState

pub record RequestInfo : Type 0 where
  pub state : ParsingState
  pub request_type : RequestType
  pub request_flags : ℕ
  pub p_key_buffer : Option ℕ
  pub key_buffer_len : ℕ
  pub flags : ℕ
  pub exp_time : ℕ
  pub cas_ticket : ℕ
  pub p_data_buffer : Option ℕ
  pub data_len : ℕ
  pub get_keys_list : Option (List (ℕ × ℕ))

pub record StorageValue : Type 0 where
  pub value : List ℕ
  pub cas_ticket : ℕ
  pub flags : ℕ

-- The constructor of `RequestInfo`.
abbrev pub new_info : RequestInfo
new_info = record {
  state = ready_state;
  request_type = type_max;
  request_flags = 0;
  p_key_buffer = none;
  key_buffer_len = 0;
  flags = 0;
  exp_time = 0;
  cas_ticket = 0;
  p_data_buffer = none;
  data_len = 0;
  get_keys_list = none;
}

-- `reset`, which sets every field.
abbrev pub reset : RequestInfo → RequestInfo
reset info = new_info

-- `CacheRequestType`, in its order
abbrev pub request_types : List RequestType
request_types =
    RequestType.get ∷ RequestType.set ∷ RequestType.add ∷ RequestType.delete ∷ RequestType.replace
    ∷ RequestType.cas ∷ RequestType.gets ∷ RequestType.append ∷ RequestType.prepend
    ∷ RequestType.incr ∷ RequestType.decr ∷ RequestType.touch ∷ RequestType.watch
    ∷ RequestType.lru_crawler ∷ RequestType.stats ∷ RequestType.slabs ∷ RequestType.stat
    ∷ RequestType.unsupported ∷ []

-- The cast of a command's index to `CacheRequestType`.
unfoldable pub request_type_of : ℕ → RequestType
request_type_of n = elim (get_elem? request_types n) [ none ↦ type_max | some kind ↦ kind ]
