-- ===== src/Server/Relay/Capabilities/Declared.antt =====
-- relay.rs: what the agent is told that the client can do.
use mjx_acp_agent.Prelude.{
  String, Option, none, some, List, [], ◌∷◌, ◌≡◌, refl, ap, sym, ◌∙◌, Bool, true, false, and_then,
  if◌then◌else◌, ◌==◌, string_eq,
}
use mjx_acp_agent.Prelude.Map.{Map, lookup, insert, lookup-insert}
use mjx_acp_agent.Core.Frame.{RawValue, RequestId, request}
use mjx_acp_agent.Core.Method.Agent.{initialize}
use mjx_acp_agent.Server.Relay.Capabilities.{
  JsonValues, entry_or_empty, value_of, with_fs, add_fs, add_terminal, add_capabilities,
  merged_value, merge_client_capabilities,
}

module _ {V : Type 0} (json : JsonValues V) where
  -- The value at a path of members.
  unfoldable pub member : List String → V → Option V
  member [] v = some v
  member (key ∷ path) v = and_then (json.members v) λ m. and_then (lookup key m) λ u. member path u

  module _ (reads_back : (m : Map String V) → json.members (json.object m) ≡ some m) where
    -- The members of the value that the three maps are merged to.
    abbrev full_fs : Map String V → V
    full_fs fs =
        json.object (insert "writeTextFile" json.truth (insert "readTextFile" json.truth fs))

    abbrev full_caps : Map String V → Map String V → V
    full_caps fs caps = json.object (insert "terminal" json.truth (insert "fs" (full_fs fs) caps))

    with_fs-object :
        (v : V) (fs : Map String V) → json.members v ≡ some fs → with_fs json v ≡ full_fs fs
    unfolding with_fs
    with_fs-object v fs f = rw (f, with_fs) refl

    add_terminal-object :
        (m : Map String V)
        → add_terminal json (json.object m) ≡ some (json.object (insert "terminal" json.truth m))
    unfolding add_terminal
    add_terminal-object m = rw (reads_back m) refl

    merged_to :
        (v : V) (top caps fs : Map String V)
        → json.members v ≡ some top
        → json.members (entry_or_empty json "clientCapabilities" top) ≡ some caps
        → json.members (entry_or_empty json "fs" caps) ≡ some fs
        → merged_value json true true v
          ≡ some (json.object (insert "clientCapabilities" (full_caps fs caps) top))
    unfolding merged_value add_capabilities add_fs
    merged_to v top caps fs t c f =
        rw
          (
            t,
            c,
            with_fs-object (entry_or_empty json "fs" caps) fs f,
            add_terminal-object (insert "fs" (full_fs fs) caps),
          )
          refl

    and_then-some : (o : Option V) → and_then o (λ u. some u) ≡ o
    and_then-some none = refl
    and_then-some (some u) = refl

    member-lookup :
        (key : String) (m : Map String V) → member (key ∷ []) (json.object m) ≡ lookup key m
    unfolding member
    member-lookup key m = rw (reads_back m) (and_then-some (lookup key m))

    member-object :
        (key j : String) (path : List String) (u : V) (m : Map String V)
        → member (j ∷ path) (json.object (insert key u m))
          ≡ (if key == j then member path u else member (j ∷ path) (json.object m))
    unfolding member
    member-object key j path u m =
        rw (reads_back (insert key u m), lookup-insert key j u m, reads_back m) (found (key == j))
      where
        found :
            (b : Bool)
            → (and_then (if b then some u else lookup j m) λ u. member path u)
              ≡ (if b then member path u else (and_then (lookup j m) λ u. member path u))
        found true = refl
        found false = refl

    -- Inside the capabilities that are written.
    in_capabilities :
        (path : List String) (u : V) (m : Map String V)
        → member ("clientCapabilities" ∷ path) (json.object (insert "clientCapabilities" u m))
          ≡ member path u
    in_capabilities path u m = member-object "clientCapabilities" "clientCapabilities" path u m

    in_fs :
        (path : List String) (fs caps : Map String V)
        → member ("fs" ∷ path) (full_caps fs caps) ≡ member path (full_fs fs)
    in_fs path fs caps =
        member-object "terminal" "fs" path json.truth (insert "fs" (full_fs fs) caps)
        ∙ member-object "fs" "fs" path (full_fs fs) caps

    capability :
        (k : String) (fs caps : Map String V)
        → member (k ∷ []) (full_caps fs caps) ≡ (
            if "terminal" == k
            then some json.truth
            else if "fs" == k
            then some (full_fs fs)
            else lookup k caps)
    unfolding member
    capability k fs caps =
        member-object "terminal" k [] json.truth (insert "fs" (full_fs fs) caps)
        ∙ ap (λ o. if "terminal" == k then some json.truth else o)
            (member-object "fs" k [] (full_fs fs) caps
              ∙ ap (λ o. if "fs" == k then some (full_fs fs) else o) (member-lookup k caps))

    file_capability :
        (k : String) (fs : Map String V)
        → member (k ∷ []) (full_fs fs) ≡ (
            if "writeTextFile" == k
            then some json.truth
            else if "readTextFile" == k
            then some json.truth
            else lookup k fs)
    unfolding member
    file_capability k fs =
        member-object "writeTextFile" k [] json.truth (insert "readTextFile" json.truth fs)
        ∙ ap (λ o. if "writeTextFile" == k then some json.truth else o)
            (member-object "readTextFile" k [] json.truth fs
              ∙ ap (λ o. if "readTextFile" == k then some json.truth else o) (member-lookup k fs))

    -- Whatever the browser says of these three, an `initialize` whose params, capabilities and file capabilities are
    -- objects or missing is sent to the agent with files readable and writable and with terminals, under its own id; every
    -- other member of the params, every other capability and every other file capability is as it was, or as missing.
    pub merge_client_capabilities-declares :
        (written : V → RawValue)
        → ((v : V) → json.to_raw_value v ≡ some (written v))
        → (i : RequestId) (q : Option RawValue) (k : String) (top caps fs : Map String V)
        → json.members (value_of json q) ≡ some top
        → json.members (entry_or_empty json "clientCapabilities" top) ≡ some caps
        → json.members (entry_or_empty json "fs" caps) ≡ some fs
        → (v : V) × (merge_client_capabilities json (request i initialize q) true true
            ≡ some (request i initialize (some (written v))))
          × (member ("clientCapabilities" ∷ "fs" ∷ "readTextFile" ∷ []) v ≡ some json.truth)
          × (member ("clientCapabilities" ∷ "fs" ∷ "writeTextFile" ∷ []) v ≡ some json.truth)
          × (member ("clientCapabilities" ∷ "terminal" ∷ []) v ≡ some json.truth)
          × (member (k ∷ []) v ≡ (
              if "clientCapabilities" == k
              then member ("clientCapabilities" ∷ []) v
              else lookup k top))
          × (member ("clientCapabilities" ∷ k ∷ []) v ≡ (
              if "terminal" == k
              then some json.truth
              else if "fs" == k
              then member ("clientCapabilities" ∷ "fs" ∷ []) v
              else lookup k caps))
          × (member ("clientCapabilities" ∷ "fs" ∷ k ∷ []) v ≡ (
              if "writeTextFile" == k
              then some json.truth
              else if "readTextFile" == k
              then some json.truth
              else lookup k fs))
    unfolding merge_client_capabilities member
    merge_client_capabilities-declares written writes i q k top caps fs t c f =
        let v = json.object (insert "clientCapabilities" (full_caps fs caps) top) in
        (
          v,
          rw (merged_to (value_of json q) top caps fs t c f, writes v) refl,
          in_capabilities ("fs" ∷ "readTextFile" ∷ []) (full_caps fs caps) top
              ∙ in_fs ("readTextFile" ∷ []) fs caps
              ∙ member-object "writeTextFile" "readTextFile" [] json.truth
                  (insert "readTextFile" json.truth fs)
              ∙ member-object "readTextFile" "readTextFile" [] json.truth fs,
          in_capabilities ("fs" ∷ "writeTextFile" ∷ []) (full_caps fs caps) top
              ∙ in_fs ("writeTextFile" ∷ []) fs caps
              ∙ member-object "writeTextFile" "writeTextFile" [] json.truth
                  (insert "readTextFile" json.truth fs),
          in_capabilities ("terminal" ∷ []) (full_caps fs caps) top ∙ capability "terminal" fs caps,
          member-object "clientCapabilities" k [] (full_caps fs caps) top
              ∙ ap (λ o. if "clientCapabilities" == k then some (full_caps fs caps) else o)
                  (member-lookup k top)
              ∙ ap (λ o. if "clientCapabilities" == k then o else lookup k top)
                  (sym (in_capabilities [] (full_caps fs caps) top)),
          in_capabilities (k ∷ []) (full_caps fs caps) top
              ∙ capability k fs caps
              ∙ ap
                  (λ o.
                    if "terminal" == k
                    then some json.truth
                    else if "fs" == k
                    then o
                    else lookup k caps)
                  (sym (in_capabilities ("fs" ∷ []) (full_caps fs caps) top ∙ in_fs [] fs caps)),
          in_capabilities ("fs" ∷ k ∷ []) (full_caps fs caps) top
              ∙ in_fs (k ∷ []) fs caps
              ∙ file_capability k fs,
        )
