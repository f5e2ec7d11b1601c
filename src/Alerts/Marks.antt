-- ===== src/Alerts/Marks.antt =====
-- markAsRead, markAllAsRead and getUnreadCount of alerts/alerts.service.ts, over the rows of
-- `user_alert`.
use egypt_supply_chain_visib.Base.{
  ℕ, ltb, ◌==◌, ◌≡◌, inl, inr, Bool, true, false, not, ◌&&◌, Bool-cases, Option-cases, Option, none,
  some, if◌then◌else◌, Result, ok, err, not_found, arith,
}
use egypt_supply_chain_visib.Store.{Table}

pub record UserAlert : Type 0 where
  pub alert_id : ℕ
  pub user_id : ℕ
  pub is_read : Bool
  pub read_at : Option ℕ

-- `where: { user_id: userId, is_read: false }`
abbrev pub is_unread_of : ℕ → UserAlert → Bool
is_unread_of user_id mark = mark.user_id == user_id && not mark.is_read

-- `data: { is_read: true, read_at: new Date() }`
abbrev pub read_row : ℕ → UserAlert → UserAlert
read_row now mark = record mark { is_read = true; read_at = some now }

module _ (t : Table UserAlert) (rows : t.Rows) where
  unfoldable pub mark_as_read : ℕ → ℕ → ℕ → Result (t.Rows)
  mark_as_read now user_id id = elim (t.find rows id) [
    | none ↦ err not_found
    | some mark ↦
        if not (mark.user_id == user_id)
        then err not_found
        else ok (t.save rows id (read_row now mark))
  ]

  unfoldable pub get_unread_count : ℕ → ℕ
  get_unread_count user_id = t.count rows (is_unread_of user_id)

  -- The rows, and the count of those that were written.
  unfoldable pub mark_all_as_read : ℕ → ℕ → t.Rows × ℕ
  unfolding get_unread_count
  mark_all_as_read now user_id =
      (t.update_where rows (is_unread_of user_id) (read_row now), get_unread_count user_id)

module _ (t : Table UserAlert) (rows : t.Rows) (now user_id : ℕ) where
  -- A row that is unread after markAllAsRead is another user's, and was unread before.
  left_unread :
      (other k : ℕ) (mark : UserAlert)
      → t.find (mark_all_as_read t rows now user_id).0 k ≡ some mark
      → is_unread_of other mark ≡ true
      → (t.find rows k ≡ some mark) × (is_unread_of user_id mark ≡ false)
  unfolding mark_all_as_read
  left_unread other k mark there unread = elim (Option-cases (t.find rows k)) [
    | inl gone ↦
        absurd (ground (arith, t.find-update_where rows (is_unread_of user_id) (read_row now) k))
    | inr (old, before) ↦ elim (Bool-cases (is_unread_of user_id old)) [
      | inl hit ↦
          absurd (ground (arith, t.find-update_where rows (is_unread_of user_id) (read_row now) k))
      | inr miss ↦ ground (arith, t.find-update_where rows (is_unread_of user_id) (read_row now) k)
    ]
  ]

  -- After markAllAsRead the user has no unread alert, and the marks of others are as before.
  mark_all_as_read-get_unread_count :
      (get_unread_count t (mark_all_as_read t rows now user_id).0 user_id ≡ 0)
      × ((k : ℕ) (mark : UserAlert)
          → t.find rows k ≡ some mark
          → (mark.user_id == user_id) ≡ false
          → t.find (mark_all_as_read t rows now user_id).0 k ≡ some mark)
  unfolding get_unread_count mark_all_as_read
  mark_all_as_read-get_unread_count =
      let after = t.update_where rows (is_unread_of user_id) (read_row now) in
      (
        elim (Bool-cases (ltb 0 (t.count after (is_unread_of user_id)))) [
          | inl some_left ↦
              let (k, mark, there, unread) =
                t.count_find after (is_unread_of user_id) (ground arith) in
              let (before, read) = left_unread user_id k mark there unread in absurd (ground arith)
          | inr none_left ↦ ground arith
        ],
        λ k mark there other.
            ground (arith, t.find-update_where rows (is_unread_of user_id) (read_row now) k),
      )
