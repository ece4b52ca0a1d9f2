-- ===== src/Custody/Hash.antt =====
-- `ComputeLogHash`, `canonicalJSON` and `sortedJSON` of chain.go.
use Prim.Native.String.{◌++◌}
use vault_keeper.Prelude.{String, none, some}
use vault_keeper.Custody.{Ext, Event}

module _ (ext : Ext) where
  open ext use {sha256_hex, uuid_string, rfc3339_nano, Json, unmarshal, marshal}

  sorted_json : Json → String
  sorted_json m = elim (marshal m) [ none ↦ "{}" | some b ↦ b ]

  unfoldable pub canonical_json : String → String
  unfolding sorted_json
  canonical_json v = elim (unmarshal v) [ none ↦ v | some parsed ↦ sorted_json parsed ]

  -- The part of the hashed text behind the previous hash.
  unfoldable pub entry_text : Event → String
  entry_text e =
      "|"
      ++ (uuid_string e.id
          ++ ("|"
              ++ (e.actor_user_id
                  ++ ("|"
                      ++ (e.action
                          ++ ("|"
                              ++ (rfc3339_nano e.timestamp
                                  ++ ("|"
                                      ++ (uuid_string e.evidence_id
                                          ++ ("|"
                                              ++ (uuid_string e.case_id
                                                  ++ ("|" ++ canonical_json e.detail))))))))))))

  unfoldable pub compute_log_hash : String → Event → String
  compute_log_hash prev e = sha256_hex (prev ++ entry_text e)
