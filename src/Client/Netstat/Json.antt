-- ===== src/Client/Netstat/Json.antt =====
-- `netStatInfoToJson` of InfoDumping/InfoDumping.cpp.
use project.Prelude.{ℕ, suc, ◌-◌, List, [], ◌∷◌, ◌++◌, length, codes, ltb, if◌then◌else◌}
use project.Client.Netstat.{NetStatInfo}

-- `    "key": "value"`
abbrev pub field : List ℕ → List ℕ → List ℕ
field key value = codes "    \"" ++ (key ++ (codes "\": \"" ++ (value ++ codes "\"")))

unfoldable pub row_json : NetStatInfo → List ℕ
row_json info =
    codes "  {\n"
    ++ (field (codes "Protocol") info.protocol
        ++ (codes ",\n"
            ++ (field (codes "Local Address") info.local_address
                ++ (codes ",\n"
                    ++ (field (codes "Foreign Address") info.foreign_address
                        ++ (codes ",\n"
                            ++ (field (codes "State") info.state
                                ++ (codes ",\n"
                                    ++ (field (codes "PID") info.pid ++ codes "\n  }")))))))))

-- The loop from the index `i` on, with the size of the whole vector.
unfoldable pub rows_json : ℕ → ℕ → List NetStatInfo → List ℕ
unfolding row_json
rows_json i n [] = []
rows_json i n (info ∷ infos) =
    row_json info
    ++ ((if ltb i (n - 1) then codes "," else []) ++ (codes "\n" ++ rows_json (suc i) n infos))

unfoldable pub net_stat_info_to_json : List NetStatInfo → List ℕ
unfolding rows_json
net_stat_info_to_json infos = codes "[\n" ++ (rows_json 0 (length infos) infos ++ codes "]\n")
