-- ===== src/Util/Endpoint.antt =====
-- `ParseGRPCEndpoint` of pkg/util/util.go.
use Prim.Native.String.{◌++◌ as ◌<>◌}
use baiducloud_cce_csi_drive.Base.{
  String, ◌||◌, true, Option, none, some, ◌≡◌, ◌≢◌, arith, ◌==◌, starts_with, eq_iff, Result, ok,
  err, if◌then◌else◌, Option-cases, inl, inr,
}
use baiducloud_cce_csi_drive.Util.Text.{to_lower, split_first}
use baiducloud_cce_csi_drive.Util.Text.Laws.{append-split_first}

pub data EndpointError : Type 0 where
  invalid_endpoint : EndpointError

-- `len(s) > 1 && s[1] != ""`, and the fall through to the error.
split_endpoint : Option (String × String) → Result EndpointError (String × String)
split_endpoint none = err invalid_endpoint
split_endpoint (some (proto, addr)) = if addr == "" then err invalid_endpoint else ok (proto, addr)

unfoldable pub parse_grpc_endpoint : String → Result EndpointError (String × String)
unfolding split_endpoint
parse_grpc_endpoint ep =
    if starts_with (to_lower ep) "unix://" || starts_with (to_lower ep) "tcp://"
    then split_endpoint (split_first "://" ep)
    else err invalid_endpoint

-- An accepted endpoint is its protocol, `://` and its address, the address is not empty, and the
-- endpoint in lower case begins with `unix://` or `tcp://`.
pub parse_grpc_endpoint-ok :
    (ep : String) {proto addr : String}
    → parse_grpc_endpoint ep ≡ ok (proto, addr)
    → (proto <> ("://" <> addr) ≡ ep)
      × (addr ≢ "")
      × ((starts_with (to_lower ep) "unix://" || starts_with (to_lower ep) "tcp://") ≡ true)
unfolding parse_grpc_endpoint
parse_grpc_endpoint-ok ep {proto} {addr} h = elim (Option-cases (split_first "://" ep)) [
  | inl e ↦ ground (arith, e)
  | inr ((a, b), e) ↦ (
    rw (append-split_first "://" ep {a = proto} {b = addr} (ground (arith, e, h))),
    ground (arith, e, eq_iff b "", eq_iff addr ""),
    ground (arith, e),
  )
]
