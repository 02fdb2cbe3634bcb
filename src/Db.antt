-- ===== src/Db.antt =====
-- tools/oracle/internal/db/sequences.go: the SQL texts that read and set the state of the sequences.
-- Baselines has the calls of psql that send them, and Server those of db.go.
pub mod Quoting
pub mod Server
pub mod Building
pub mod Baselines
pub mod Restoring
pub mod Naming
use postgrest_conformance.Base.{ℕ, Bool, List, [], ◌∷◌, ◌++◌}
use postgrest_conformance.Base.Text.{Bytes, codes, replace_all, join}
use postgrest_conformance.Base.Int.{ℤ}

-- `SequenceState`
pub record SequenceState : Type 0 where
  pub schema : Bytes
  pub name : Bytes
  pub last_value : ℤ
  pub is_called : Bool

-- a text between two quotes, the quotes in it doubled
unfoldable pub quote_with : ℕ → Bytes → Bytes
unfolding replace_all
quote_with q s = q ∷ (replace_all s q (q ∷ q ∷ []) ++ q ∷ [])

-- `quoteIdent`
unfoldable pub quote_ident : Bytes → Bytes
unfolding quote_with
quote_ident s = quote_with b'"' s

-- `quoteLiteral`
unfoldable pub quote_literal : Bytes → Bytes
unfolding quote_with
quote_literal s = quote_with b'\'' s

-- the query of one sequence
unfoldable pub state_part : SequenceState → Bytes
unfolding quote_ident quote_literal
state_part s =
    codes "SELECT "
    ++ (quote_literal s.schema
        ++ (codes " AS schema, "
            ++ (quote_literal s.name
                ++ (codes " AS name, last_value, is_called FROM "
                    ++ (quote_ident s.schema ++ (b'.' ∷ quote_ident s.name))))))

state_parts : List SequenceState → List Bytes
unfolding state_part
state_parts [] = []
state_parts (s ∷ ss) = state_part s ∷ state_parts ss

-- `sequenceStateSQL`
unfoldable pub sequence_state_sql : List SequenceState → Bytes
unfolding state_parts join
sequence_state_sql seqs =
    codes "SELECT json_agg(s) FROM ("
    ++ (join (state_parts seqs) (codes " UNION ALL ") ++ codes ") s")

-- the text of `restoreSQL`, of the JSON that encoding/json makes of the sequences
unfoldable pub restore_sql : Bytes → Bytes
unfolding quote_literal
restore_sql js =
    codes "SET standard_conforming_strings = on; "
    ++ (codes
          "SELECT count(pg_catalog.setval(format('%I.%I', s.schema, s.name)::regclass, s.last_value, s.is_called)) "
        ++ (codes "FROM json_to_recordset("
            ++ (quote_literal js
                ++ (codes "::json) "
                    ++ codes
                        "AS s(schema text, name text, last_value bigint, is_called boolean)"))))
