-- ===== src/Discovery/Response.antt =====
-- The body of the response in core/src/discovery.cpp: `ResponseBuffer` and the write function
-- `append_response` that libcurl calls.
use py_net_ft.Common.{
  ℕ, ◌+◌, ◌-◌, ◌*◌, ◌/◌, ◌%◌, Bool, true, false, ◌&&◌, not, List, [], ◌∷◌, ◌++◌, ltb, ◌==◌,
  if◌then◌else◌, length, take, u64_mod,
}
use py_net_ft.XmlConfig.Characters.{Text}

pub record ResponseBuffer : Type 0 where
  pub body : Text
  pub too_large : Bool
  pub write_failed : Bool

abbrev pub new_response : ResponseBuffer
new_response = record { body = []; too_large = false; write_failed = false }

abbrev pub maximum_response_bytes : ℕ
maximum_response_bytes = 65536

-- A call of the write function: `bytes` stands from `data` on, and `stored` tells whether there is memory.
pub record Write : Type 0 where
  pub bytes : Text
  pub size : ℕ
  pub count : ℕ
  pub stored : Bool

-- The response, and what the call returns.
unfoldable pub append_response : ResponseBuffer → Write → ResponseBuffer × ℕ
append_response r w =
    let byte_count = w.size * w.count % u64_mod in
    if not (w.size == 0) && ltb ((u64_mod - 1) / w.size) w.count
    then (record r { too_large = true }, 0)
    else if ltb ((maximum_response_bytes + u64_mod - length r.body) % u64_mod) byte_count
    then (record r { too_large = true }, 0)
    else if not w.stored
    then (record r { write_failed = true }, 0)
    else (record r { body = r.body ++ take byte_count w.bytes }, byte_count)

-- The response after the calls of a transfer.
unfoldable pub written : List Write → ResponseBuffer → ResponseBuffer
unfolding append_response
written [] r = r
written (w ∷ ws) r = written ws (append_response r w).0
