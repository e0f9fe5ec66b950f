-- ===== src/Cli/Options.antt =====
-- cmd/authzen/main.go: the flags that every command shares, and what a command does before its call.
-- What is written to the standard error is left out.
use authzen.Base.{
  ℕ, Bool, true, false, ◌&&◌, not, List, [], ◌∷◌, ◌++◌, Option, none, some, Text, text, text_eq,
  is_empty, ℤ, pos, is_pos, if◌then◌else◌, Result, ok, err, ◌>>=◌, ◌>>◌, reject_if,
}
use authzen.Client.Config.{
  Url, Net, Client, with_bearer_token, with_insecure_allow_http, new_client,
}

pub record GlobalOpts : Type 0 where
  pub url : Text
  pub token : Text
  pub timeout : ℤ
  pub json : Bool
  pub insecure_allow_http : Bool

-- What flag.FlagSet.Parse makes of the arguments: the flags, ErrHelp, or another error.
pub data Parsed (F : Type 0) : Type 0 where
  parsed : F → Parsed F
  flag_help flag_error : Parsed F

-- What a command writes to the standard output.
pub data Output : Type 0 where
  usage : Output
  document : Text → Output
  line : Text → Output
  -- a line with a number, one with the type and the id of an entity, and one with a key
  numbered : ℕ → Text → Output
  entity : Text → Text → Output
  keyed : Text → Text → Output

-- How a command ends.
pub record Exit : Type 0 where
  pub code : ℤ
  pub stdout : List Output

abbrev pub quit : ℤ → Exit
quit n = record { code = n; stdout = [] }

-- `--` ends the scan.
unfoldable pub help_requested : List Text → Bool
help_requested [] = false
help_requested (a ∷ rest) =
    let later = help_requested rest in
    if text_eq a (text "--")
    then false
    else if text_eq a (text "-h")
    then true
    else if text_eq a (text "--help")
    then true
    else if text_eq a (text "help")
    then true
    else later

-- An error is the exit code.
unfoldable pub parse_flags : {F : Type 0} → Parsed F → Result ℤ F
parse_flags (parsed f) = ok f
parse_flags flag_help = err (pos 0)
parse_flags flag_error = err (pos 2)

unfoldable pub new_client_of : GlobalOpts → Client
new_client_of g =
    let token = if is_empty g.token then [] else with_bearer_token g.token ∷ [] in
    let insecure = if g.insecure_allow_http then with_insecure_allow_http ∷ [] else [] in
    new_client g.url (token ++ insecure)

unfoldable pub decision_label : Bool → Text
decision_label true = text "allow"
decision_label false = text "deny"

module _ {W : Type 0} (net : Net W) where
  -- A URL with a scheme other than https.
  unfoldable pub is_cleartext : Option Url → Bool
  is_cleartext none = false
  is_cleartext (some u) = not (is_empty u.scheme) && not (net.equal_fold u.scheme (text "https"))

  unfoldable pub validate_global : GlobalOpts → Result ℤ (Unit {0})
  validate_global g =
      reject_if (is_empty g.url) (pos 2)
      >> reject_if (not (is_pos g.timeout)) (pos 2)
      >> reject_if
          (not (is_empty g.token)
            && not g.insecure_allow_http
            && is_cleartext (net.parse_url g.url))
          (pos 2)

  -- Help, the flags and the shared rules, then the command itself.
  unfoldable pub start :
      {F : Type 0} → W → List Text → Parsed F → (F → GlobalOpts) → (F → W × Exit) → W × Exit
  start w args flags global body =
      if help_requested args
      then (w, record { code = pos 0; stdout = usage ∷ [] })
      else elim (parse_flags flags >>= λ f. validate_global (global f) >> ok f) [
        | err code ↦ (w, quit code)
        | ok f ↦ body f
      ]
