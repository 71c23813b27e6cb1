-- ===== src/Protocol/Outfits.antt =====
-- How a creature looks (crates/protocol/src/creature.rs), and the packets that tell and change it
-- (crates/protocol/src/outfit.rs).
use package.oxidia.Prelude.{
  ℕ, ◌≡◌, ap, Bool, List, [], ◌∷◌, ◌++◌, Option, none, some, if◌then◌else◌, ◌==◌, length, min, take,
  false, ◌/◌, ◌%◌, ◌∙◌,
}
use package.oxidia.Protocol.Bytes.{Bytes, u16_of, IsU16, u16_of-bytes}
use package.oxidia.Protocol.Message.{write_u8, write_u16, write_u32, write_string}

pub record Outfit : Type 0 where
  pub look_type : ℕ
  pub head : ℕ
  pub body : ℕ
  pub legs : ℕ
  pub feet : ℕ
  pub addons : ℕ
  pub mount : ℕ

-- On the bytes written so far.
unfoldable pub add_outfit : Outfit → Bytes → Bytes
add_outfit o w =
    let look = write_u16 o.look_type w in
    let worn =
      if o.look_type == 0
      then write_u16 0 look
      else write_u8 o.addons
          (write_u8 o.feet (write_u8 o.legs (write_u8 o.body (write_u8 o.head look)))) in
    write_u16 o.mount worn

unfoldable pub parse_set_outfit : Bytes → Option Outfit
parse_set_outfit (a ∷ b ∷ head ∷ body ∷ legs ∷ feet ∷ addons ∷ c ∷ d ∷ rest) = some (record {
  look_type = u16_of a b;
  head = head;
  body = body;
  legs = legs;
  feet = feet;
  addons = addons;
  mount = u16_of c d;
})
parse_set_outfit _ = none

unfoldable pub creature_outfit : ℕ → Outfit → Bytes
unfolding add_outfit
creature_outfit creature_id o = add_outfit o (write_u32 creature_id (write_u8 0x8e []))

pub record AvailableOutfit : Type 0 where
  pub look_type : ℕ
  pub name : Bytes
  pub addons : ℕ

pub record AvailableMount : Type 0 where
  pub client_id : ℕ
  pub name : Bytes

unfoldable write_outfits : List AvailableOutfit → Bytes → Bytes
write_outfits [] w = w
write_outfits (o ∷ rest) w =
    write_outfits rest (write_u8 o.addons (write_string o.name (write_u16 o.look_type w)))

unfoldable write_mounts : List AvailableMount → Bytes → Bytes
write_mounts [] w = w
write_mounts (m ∷ rest) w = write_mounts rest (write_string m.name (write_u16 m.client_id w))

-- No more than 255 of each.
unfoldable pub outfit_window : Outfit → List AvailableOutfit → List AvailableMount → Bytes
unfolding add_outfit write_outfits write_mounts
outfit_window current outfits mounts =
    let outfit_count = min (length outfits) 255 in
    let mount_count = min (length mounts) 255 in
    let w = write_u8 outfit_count (add_outfit current (write_u8 0xc8 [])) in
    let listed = write_outfits (take outfit_count outfits) w in
    write_mounts (take mount_count mounts) (write_u8 mount_count listed)

pub record CreatureView : Type 0 where
  pub id : ℕ
  pub name : Bytes
  pub health_percent : ℕ
  pub direction : ℕ
  pub outfit : Outfit
  pub light_level : ℕ
  pub light_color : ℕ
  pub speed : ℕ
  pub creature_type : ℕ
  pub walkthrough : ℕ

unfoldable pub add_creature : CreatureView → Bool → ℕ → Bytes
unfolding add_outfit
add_creature v known remove_id =
    let named =
      if known
      then write_u32 v.id (write_u16 0x62 [])
      else write_string v.name
          (write_u8 v.creature_type (write_u32 v.id (write_u32 remove_id (write_u16 0x61 [])))) in
    let looks = add_outfit v.outfit (write_u8 v.direction (write_u8 v.health_percent named)) in
    let lit = write_u16 (v.speed / 2) (write_u8 v.light_color (write_u8 v.light_level looks)) in
    let shields = write_u8 0 (write_u8 0 lit) in
    let emblem = if known then shields else write_u8 0 shields in
    write_u8 v.walkthrough
      (write_u16 0 (write_u8 0xff (write_u8 0 (write_u8 v.creature_type emblem))))

-- The look of a creature whose type and mount fit in sixteen bits, as the server tells it, is what the
-- parser of a change of outfit reads, whatever follows.
pub parse_set_outfit-add_outfit :
    (o : Outfit) (rest : Bytes)
    → (o.look_type == 0) ≡ false
    → IsU16 o.look_type
    → IsU16 o.mount
    → parse_set_outfit (add_outfit o [] ++ rest) ≡ some o
unfolding parse_set_outfit add_outfit
parse_set_outfit-add_outfit o rest creature type_u16 mount_u16 =
    let mount_read = u16_of (o.mount % 256) (o.mount / 256 % 256) in
    let type_path =
      ap (λ l. record o { look_type = l; mount = mount_read })
        (u16_of-bytes o.look_type type_u16) in
    let mount_path = ap (λ m. record o { mount = m }) (u16_of-bytes o.mount mount_u16) in
    rw creature (ap some (type_path ∙ mount_path))
