-- ===== src/Client/Registry/Enumerate.antt =====
-- The recursion of `EnumerateKey` of InfoDumping/InfoDumping.cpp.
use project.Prelude.{ℕ, suc, List, [], ◌++◌, codes, ltb, if◌then◌else◌}
use project.Client.Registry.{
  Printer, say, ◌>>◌, Info, Key, closed, opened, Keys, no_keys, subkey, print_wide,
}
use project.Client.Registry.Value.{say_values}

unfoldable pub key_json : List ℕ → List ℕ
unfolding print_wide
key_json name = codes "{\n" ++ (codes "  \"Key\": \"" ++ (print_wide name ++ codes "\",\n"))

-- The part for the subkeys, around their loop.
unfoldable pub say_subkeys : Info → Printer → Printer
unfolding ◌>>◌
say_subkeys info loop =
    if ltb 0 info.subkey_count
    then (do say (codes "  \"Subkeys\": [\n"); loop; say (codes "  ],\n"))
    else say []

unfoldable mutual
  unfolding ◌>>◌ key_json say_subkeys say_values

  pub enumerate_key : List ℕ → Key → Printer
  enumerate_key name closed = say []
  enumerate_key name (opened info keys) = do
    say (key_json name)
    say_subkeys info (enumerate_keys 0 info.subkey_count keys)
    say_values info
    say (codes "}")

  -- The loop over the subkeys from the index `i` on.
  pub enumerate_keys : ℕ → ℕ → Keys → Printer
  enumerate_keys i count no_keys = say []
  enumerate_keys i count (subkey name key keys) = do
    enumerate_key name key
    say (if ltb (suc i) count then codes ",\n" else [])
    enumerate_keys (suc i) count keys
