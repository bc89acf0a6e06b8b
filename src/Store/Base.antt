-- ===== src/Store/Base.antt =====
-- Types and small helpers that the methods of the store share.
use Prim.Native.String.{len}
use evesso.Prelude.{◌*◌, String, Bool, List, [], ◌∷◌, ◌++◌, ltb, if◌then◌else◌, ℤ, is_positive}
use evesso.Sql.{Time, Strings, CharacterCond}

-- `5 * time.Minute` and `1 * time.Second`
abbrev pub five_minutes : Time
five_minutes = 300 * 1000000

abbrev pub one_second : Time
one_second = 1000000

-- evesso.CharacterClaims of DataStore.go
pub record CharacterClaims : Type 0 where
  pub character_id : ℤ
  pub character_name : String
  pub owner : String
  pub scopes : Strings

-- What the program reads of an oauth2.Token.
pub record OauthToken : Type 0 where
  pub access_token : String
  pub refresh_token : String
  pub expiry : Time

-- `len(s) > 0`
abbrev pub is_given : String → Bool
is_given s = ltb 0 (len s)

-- The optional conditions with which both FindCharacter methods begin.
unfoldable pub identity_conds : ℤ → String → String → List CharacterCond
identity_conds character_id character_name owner =
    (if is_positive character_id then CharacterCond.character_id_is character_id ∷ [] else [])
    ++ (if is_given character_name then CharacterCond.character_name_is character_name ∷ [] else [])
    ++ (if is_given owner then CharacterCond.owner_is owner ∷ [] else [])
