-- ===== src/Store/Characters/Reading.antt =====
-- What Token of a stored character reads.
use evesso.Prelude.{
  ◌≡◌, refl, ap, ◌∙◌, true, map, [], ◌∷◌, arith, Any, All-imp, IsOnly, filter_of_IsOnly,
  alone_of_key,
}
use evesso.Exec.{ok}
use evesso.Sql.{Character, CharacterCond, Kind, run, select_tokens, character_matches}
use evesso.Sql.Schema.{CharacterDiffers, IsConsistent}
use evesso.World.{World}
use evesso.Store.Query.Outcome.{query_struct-served}
use evesso.Store.Query.{query_struct}
use evesso.Store.Characters.{token, stored_token}

module _ (w : World) where
  open w use {State, tables, served, clock}

  -- The two tokens of the row that has the id of the object, which becomes that row.
  pub token_complete :
      (c : Character) (s : State)
      → served s ≡ true
      → IsConsistent (tables s)
      → Any (λ d. c ≡ d) (tables s).characters
      → (s' : State) × (token w c s
          ≡ (ok (stored_token w c.access_token c.refresh_token (clock s')), c, s'))
  unfolding token run
  token_complete c s up h there =
      let rows = (tables s).characters in
      let own =
        alone_of_key (λ (d : Character). d.id) CharacterDiffers (λ x y d. d.0) c rows
          h.character_keys there in
      let matches = character_matches (CharacterCond.id_is c.id ∷ []) in
      let only : IsOnly matches c rows = record {
        present = there;
        passes = ground arith;
        alone = All-imp (λ d. d.id ≡ c.id → d ≡ c) _ (λ d f m. f (ground arith)) rows own;
      } in
      let st = select_tokens (CharacterCond.id_is c.id ∷ []) in
      let found =
        filter_of_IsOnly matches CharacterDiffers (λ x d. d.0 refl) c rows h.character_keys only in
      let reply =
        query_struct-served w Kind.tokens st s ((c.access_token, c.refresh_token) ∷ []) up
          (ap (λ l. ok (map (λ (d : Character). (d.access_token, d.refresh_token)) l)) found)
        ∙ w.scan_one-one Kind.tokens (c.access_token, c.refresh_token) in
      ((query_struct w st s).1, rw (token, reply) refl)
