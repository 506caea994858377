-- ===== src/Identity.antt =====
-- Who a borrower is: identity verification (backend/src/kyc) and the phone code
-- (backend/src/user/phone-otp.service.ts).
pub mod Kyc
pub mod PhoneOtp
