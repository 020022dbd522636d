-- ===== src/Tests/Names.antt =====
-- The host entries of cli/internal/helper/validate.go, for two names under one domain,
-- the block of /etc/hosts with two names, and the account of a local relay.
use roxey.Hosts.Block.{merge_hosts_block-again}
use roxey.Config.{relay_env}
use roxey.Config.Credentials.{relay_env-again}
use roxey.Base.{◌≡◌, ◌≤◌, ◌∷◌, [], refl, Bytes, List, codes, none, length, All}
use roxey.Hosts.{validate_hosts, merge_hosts_block, render_block}

abbrev entries : List Bytes
entries = codes "a.test" ∷ codes "b-1.test" ∷ codes "a.test" ∷ []

abbrev domains : List Bytes
domains = codes "test" ∷ []

valid : validate_hosts entries domains ≡ none
unfolding validate_hosts roxey.Base.equal roxey.Base.split roxey.Std.Label.label_matches
    roxey.Base.has_suffix
valid = refl

abbrev old_file : Bytes
old_file = codes "127.0.0.1 localhost"

abbrev two_hosts : List Bytes
two_hosts = codes "app.dev" ∷ codes "api.dev" ∷ []

merge_hosts_block-again_example :
    merge_hosts_block (merge_hosts_block old_file (render_block two_hosts)) (codes "x")
    ≡ merge_hosts_block old_file (codes "x")
unfolding roxey.Base.contains_byte
merge_hosts_block-again_example =
    merge_hosts_block-again old_file (codes "x") two_hosts (refl, (refl, tt))

relay_env-again_example :
    relay_env
      (λ p. p)
      (relay_env (λ p. p) [] (codes "dev") (codes "a") (codes "b")).0
      (codes "dev")
      (codes "c")
      (codes "d")
    ≡ relay_env (λ p. p) [] (codes "dev") (codes "a") (codes "b")
relay_env-again_example =
    relay_env-again (λ p. p) [] (codes "dev") (codes "a") (codes "b") (codes "c") (codes "d") refl
