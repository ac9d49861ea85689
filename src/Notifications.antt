-- ===== src/Notifications.antt =====
-- Desktop notifications: desktop/notification_rules.cpp, desktop/notification_center.cpp and the badge of
-- desktop/unread_badge.cpp. The painting of badges and the platforms' notifiers are not modelled.
pub mod Rules
pub mod Pacer
pub mod Center
mod Tests
