-- ===== src/Domain/Deal.antt =====
-- backend/src/modules/deals/domain/types.ts.
use last_chance_platform.Prelude.{ℕ, Option}

pub data FlashDealStatus : Type 0 where
  scheduled active sold_out ended cancelled : FlashDealStatus

pub record FlashDeal : Type 0 where
  pub id : ℕ
  pub unit_id : ℕ
  pub created_by : ℕ
  pub discount_pct : ℕ
  pub status : FlashDealStatus
  pub starts_at : ℕ
  pub ends_at : ℕ
  pub applicable_stay_from : Option ℕ
  pub applicable_stay_to : Option ℕ
  pub quantity_total : ℕ
  pub quantity_claimed : ℕ

pub record CreateDealInput : Type 0 where
  pub unit_id : ℕ
  pub created_by : Option ℕ
  pub discount_pct : ℕ
  pub starts_at : ℕ
  pub ends_at : ℕ
  pub quantity_total : ℕ
  pub applicable_stay_from : Option ℕ
  pub applicable_stay_to : Option ℕ
