-- ===== src/Glue/Submit/Answers.antt =====
-- What checkTxResponse makes of the answer to a transaction.
use crosschain_agent.Prelude.{
  Bool, Bool-cases, Bytes, List, [], codes, eqb_ℤ, if◌then◌else◌, inl, inr, none, pos, refl, some,
  true, ℤ, ◌&&◌, ◌∷◌, ◌≡◌, ◌∙◌,
}
use crosschain_agent.Env.{Env}
use crosschain_agent.Glue.Submit.{check_tx_response, check_results}
use crosschain_agent.Exec.{done, pure}
use crosschain_agent.WebClient.{int_at, string_at, at_key}

-- The results of an answer, each with the code, the hash and the description that it reads as.
pub data Reads (env : Env) : List env.Json → List (ℤ × Bytes) → Type 0 where
  nothing : Reads env [] []
  entry :
      {r c h d : env.Json} {rs : List env.Json} {code : ℤ} {hash desc : Bytes}
      {es : List (ℤ × Bytes)}
      → env.member r (codes "error_code") ≡ some c
      → env.as_int c ≡ some code
      → env.member r (codes "hash") ≡ some h
      → env.as_string h ≡ some hash
      → env.member r (codes "error_desc") ≡ some d
      → env.as_string d ≡ some desc
      → Reads env rs es
      → Reads env (r ∷ rs) ((code, hash) ∷ es)

-- Every code is 0.
unfoldable pub all_zero : List (ℤ × Bytes) → Bool
all_zero [] = true
all_zero ((code, hash) ∷ es) = eqb_ℤ code (pos 0) && all_zero es

-- The hash of the last entry, or the given one if there is none.
unfoldable pub last_hash : Bytes → List (ℤ × Bytes) → Bytes
last_hash hash [] = hash
last_hash hash ((code, own) ∷ es) = last_hash own es

check_results_lem :
    (env : Env) (w : env.World) (before : Bytes) {rs : List env.Json} {es : List (ℤ × Bytes)}
    → Reads env rs es
    → check_results env rs before w
      ≡ done ((if all_zero es then some (last_hash before es) else none), w)
unfolding check_results all_zero last_hash int_at string_at
check_results_lem env w before nothing = refl
check_results_lem env w before
      (entry {code = code} {hash = hash} {es = es} mc ic mh sh md sd rest) =
    let ih = check_results_lem env w hash rest in
    rw (mc, ic)
      (elim (Bool-cases (eqb_ℤ code (pos 0))) [
        | inl ok ↦ rw ok (rw (mh, sh) ih)
        | inr bad ↦ rw bad (rw (md, sd))
      ])

-- What the loop of checkTxResponse goes through: the results, if they are an array.
abbrev pub results_of : (env : Env) → env.Json → List env.Json
results_of env results = if env.is_array results then env.elements results else []

check_as_list :
    (env : Env) (results : env.Json) (w : env.World)
    → (if env.is_array results then check_results env (env.elements results) [] else pure (some []))
        w
      ≡ check_results env (results_of env results) [] w
unfolding check_results pure
check_as_list env results w = elim (Bool-cases (env.is_array results)) [
  | inl a ↦ rw a refl
  | inr n ↦ rw n refl
]

loop_lem :
    (env : Env) (w : env.World) (results : env.Json) {es : List (ℤ × Bytes)}
    → Reads env (results_of env results) es
    → (if env.is_array results then check_results env (env.elements results) [] else pure (some []))
        w
      ≡ done ((if all_zero es then some (last_hash [] es) else none), w)
unfolding check_results pure
loop_lem env w results reads = check_as_list env results w ∙ check_results_lem env w [] reads

-- For an answer that parses, with results that each have a code, a hash and a description, checkTxResponse
-- succeeds exactly if every code is 0, and then gives the hash of the last result. It gives the empty
-- text if there is no result at all, and also if the results are no array.
pub check_tx_response_lem :
    (env : Env) (w : env.World) (body : Bytes) (doc results : env.Json) (es : List (ℤ × Bytes))
    → env.from_string body ≡ some doc
    → env.member doc (codes "results") ≡ some results
    → Reads env (results_of env results) es
    → check_tx_response env body w
      ≡ done ((if all_zero es then some (last_hash [] es) else none), w)
unfolding check_tx_response at_key
check_tx_response_lem env w body doc results es parses here reads =
    rw parses (rw here (loop_lem env w results reads))
