-- ===== src/Swap.antt =====
-- The swap of the chat model's profile: scripts/files/swap-webhook.py, the server that runs the
-- swap, and what scripts/files/router-app.py does to ask for one.
mod Profiles
mod Webhook
mod SingleFlight
mod Vouched
mod Trigger
mod Waits
mod Tests
