-- ===== src/Storage/S3/Boot.antt =====
-- The start of the provider (`onModuleInit` in backend/src/storage/s3/s3-storage.provider.ts).
