-- ===== src/Client/Request.antt =====
-- `RuntimeClient.request` and the methods that call it. The JSON encoder and decoder are parameters:
-- `dumps` with sorted keys and no spaces, and `loads` behind the decoding of UTF-8, `none` where
-- either fails. So is the daemon: `exchange` acts on the outside world, and is what the socket returns,
-- piece by piece, for the bytes sent, or `none` where connecting or sending raises.
use freebsd_laboratory.Base.{
  Bool, true, false, not, ◌||◌, List, [], ◌∷◌, ◌++◌, Option, none, some, if◌then◌else◌, is_nil,
}
use freebsd_laboratory.Base.Int.{ℤ, pos, eq_ℤ}
use freebsd_laboratory.Base.Text.{Text, text, eq_text}
use freebsd_laboratory.Evidence.Json.{
  Json, Members, null, bool, int, real, str, array, object, nil, item, end, member, get,
}
use freebsd_laboratory.Client.Read.{
  Received, Returned, failed, got, unavailable, invalid_json, not_an_object, no_detail, refused,
  invalid_result, read_line,
}

pub record Codec : Type 0 where
  pub dumps : Json → Text
  pub loads : Text → Option Json

-- bool(value), where the text of a float is what repr prints
unfoldable pub truthy : Json → Bool
truthy null = false
truthy (bool b) = b
truthy (int i) = not (eq_ℤ i (pos 0))
truthy (real t) =
    not (eq_text t (b'0' ∷ b'.' ∷ b'0' ∷ []) || eq_text t (b'-' ∷ b'0' ∷ b'.' ∷ b'0' ∷ []))
truthy (str t) = not (is_nil t)
truthy (array nil) = false
truthy (array (item x xs)) = true
truthy (object end) = false
truthy (object (member k v d)) = true

unfoldable pub ok_key : Text
unfolding text
ok_key = text "ok"

unfoldable pub error_key : Text
unfolding text
error_key = text "error"

unfoldable pub result_key : Text
unfolding text
result_key = text "result"

-- document.get("error") or "runtime operation failed"; `no_detail` has the latter message.
unfoldable pub detail_of : Option Json → Returned Members
detail_of none = failed no_detail
detail_of (some v) = if truthy v then failed (refused v) else failed no_detail

-- document.get("result", {})
unfoldable pub result_of : Option Json → Returned Members
result_of none = got end
result_of (some (object d)) = got d
result_of (some _) = failed invalid_result

-- document.get("ok") is not True
unfoldable pub checked : Option Json → Members → Returned Members
unfolding detail_of result_of
checked (some (bool true)) d = result_of (get result_key d)
checked _ d = detail_of (get error_key d)

unfoldable pub interpret : Option Json → Returned Members
unfolding checked
interpret none = failed invalid_json
interpret (some (object d)) = checked (get ok_key d) d
interpret (some _) = failed not_an_object

module _ (codec : Codec) where
  unfoldable pub parsed : Returned Text → Returned Members
  parsed (failed e) = failed e
  parsed (got response) = interpret (codec.loads response)

  unfoldable pub received : Option (List Received) → Returned Members
  unfolding parsed
  received none = failed unavailable
  received (some stream) = parsed (read_line stream)

module _ {W : Type 0} (codec : Codec) (exchange : Text → W → Option (List Received) × W) where
  unfoldable pub request : Text → Members → W → Returned Members × W
  unfolding received text
  request action payload w =
      let line = codec.dumps (object (member (text "action") (str action) payload)) ++ 10 ∷ [] in
      let (stream, w') = exchange line w in (received codec stream, w')

  unfoldable pub ping : W → Returned Members × W
  unfolding text
  ping = request (text "ping") end

  unfoldable pub create_jail : Text → ℤ → Text → W → Returned Members × W
  unfolding text
  create_jail name owner_pid ssh_public_key = request (text "create-jail") (
      member (text "name") (str name) (
        member (text "owner_pid") (int owner_pid)
          (member (text "ssh_public_key") (str ssh_public_key) end)))

  unfoldable pub create_bhyve : Text → ℤ → Text → Text → W → Returned Members × W
  unfolding text
  create_bhyve name owner_pid ssh_public_key profile = request (text "create-bhyve") (
      member (text "name") (str name) (
        member (text "owner_pid") (int owner_pid) (
          member (text "ssh_public_key") (str ssh_public_key)
            (member (text "profile") (str profile) end))))

  unfoldable pub destroy : Text → W → Returned Members × W
  unfolding text
  destroy name = request (text "destroy") (member (text "name") (str name) end)

  unfoldable pub gc : Bool → W → Returned Members × W
  unfolding text
  gc stale_only = request (text "gc") (member (text "stale_only") (bool stale_only) end)
